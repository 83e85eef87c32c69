-- ===== src/Structure/IoQueue.antt =====
-- lib/structure/ioqueue.c, the ring of ten characters between the keyboard and its readers.
-- `put_char` and `get_char` are one pass through the monitor, from `lockLock` or from the return of
-- `lockWait` to the next `lockWait` or `lockUnlock`: nobody else holds the lock in between. A pass
-- that finds the queue full (empty) waits, and is tried again after `lockNotifyAll`.
pub mod Refine
mod Tests
use gogoos.Common.{
  ℕ, ◌+◌, ◌%◌, ◌<◌, Bool, true, false, Option, none, some, List, ltb, ◌==◌, if◌then◌else◌, ◌>>=◌,
  ◌>>◌, assert, length, get_elem?, set,
}

abbrev pub ioqueue_buf_size : ℕ
ioqueue_buf_size = 10

-- `IOQueue` without its lock; `producer` and `consumer` are never used
pub record IoQueue : Type 0 where
  pub buf : List ℕ
  pub head : ℕ
  pub tail : ℕ
  pub is_full : Bool
  pub is_empty : Bool

-- How a pass ends.
pub data Pass (A : Type 0) : Type 0 where
  waits : Pass A
  done : A → Pass A

abbrev pub next_pos : ℕ → ℕ
next_pos pos = (pos + 1) % ioqueue_buf_size

-- `ioQueueInit`: the buffer is left as it is.
pub io_queue_init : IoQueue → IoQueue
io_queue_init q = record q { head = 0; tail = 0; is_empty = true; is_full = false }

-- `ioQueuePutChar`
pub put_char : IoQueue → ℕ → Option (Pass IoQueue)
put_char q elem = if q.is_full then some waits else do
  assert (ltb q.head (length q.buf))
  let head = next_pos q.head
  some (
      done (record q {
        buf = set q.buf q.head elem;
        head = head;
        is_empty = false;
        is_full = if head == q.tail then true else q.is_full;
      }))

-- `ioQueueGetChar`
pub get_char : IoQueue → Option (Pass (ℕ × IoQueue))
get_char q = if q.is_empty then some waits else do
  res ← get_elem? q.buf q.tail
  let tail = next_pos q.tail
  some (
      done (
        res,
        record q {
          tail = tail;
          is_full = false;
          is_empty = if tail == q.head then true else q.is_empty;
        },
      ))
