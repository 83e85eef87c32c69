-- ===== src/Shell.antt =====
-- shell: the paths that the commands take, and the lines that are typed.
pub mod CmdParse
pub mod WashPath
