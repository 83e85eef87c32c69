-- ===== src/Fs/Descriptors/Tests.antt =====
-- The tables of descriptors, with some slots taken.
use gogoos.Common.{ℕ, ◌≡◌, refl, some, List, [], ◌∷◌, replicate}
use gogoos.Common.Int.{ℤ, pos, negsuc}
use gogoos.Fs.{File}
use gogoos.Fs.Descriptors.{first_slot, pcb_fd_install}
use gogoos.Fs.Descriptors.Slots.{Installed, pcb_fd_install-Installed}

abbrev file_at : ℕ → File
file_at inode = record { fd_pos = 0; fd_flag = 0; fd_inode = inode }

abbrev files : List File
files = file_at 1 ∷ file_at 1 ∷ file_at 1 ∷ file_at 4096 ∷ replicate 28 (file_at 0)

abbrev fds : List ℤ
fds = pos 0 ∷ pos 1 ∷ pos 2 ∷ pos 3 ∷ negsuc 0 ∷ pos 5 ∷ negsuc 0 ∷ []

install_test :
    pcb_fd_install fds (pos 9)
    ≡ some (pos 4, pos 0 ∷ pos 1 ∷ pos 2 ∷ pos 3 ∷ pos 9 ∷ pos 5 ∷ negsuc 0 ∷ [])
unfolding pcb_fd_install first_slot
install_test = refl

pcb_fd_install-Installed_example :
    (r : ℤ × List ℤ) × (pcb_fd_install fds (pos 9) ≡ some r) × Installed fds (pos 9) r
pcb_fd_install-Installed_example = pcb_fd_install-Installed fds (pos 9) refl
