-- ===== src/MitControl/Fifo.antt =====
-- `FifoCommandReader` of dm_openarm/examples/arm_mit_control.cpp. The system calls are a parameter, `S` is
-- what the system holds at one moment.
use dmopenarm.Base.{
  ℕ, ◌≡◌, ◌∙◌, ap, ◌++◌, append_assoc, append-nil, sym, Bool, true, false, Option, none, some, List,
  [], ◌∷◌, runtime_error, Result, ok, err,
}
use dmopenarm.Base.Action.{Action}
use dmopenarm.Text.{Text, codes, is_empty}
use dmopenarm.MitControl.{read_lines, split_lines}

-- A descriptor is a number; `none` stands for a negative result.
pub record Posix (S : Type 0) : Type 0 where
  pub unlink : Text → S → S
  -- `mkfifo(path, 0666)`, and whether it returned 0.
  pub mkfifo : Text → S → Bool × S
  pub open_read : Text → S → Option ℕ × S
  pub open_write : Text → S → Option ℕ × S
  pub close : ℕ → S → S

pub record FifoReader : Type 0 where
  pub path : Text
  pub read_fd : Option ℕ
  pub keepalive_fd : Option ℕ
  pub pending : Text

-- The first loop of `read_lines`: what each `read` gave, up to the first that gave nothing.
unfoldable pub append_reads : List Text → Text → Text
append_reads [] pending = pending
append_reads (buffer ∷ reads) pending = elim (is_empty buffer) [
  | true ↦ pending
  | false ↦ append_reads reads (pending ++ buffer)
]

-- The bytes of these reads.
unfoldable pub bytes_read : List Text → Text
bytes_read [] = []
bytes_read (buffer ∷ reads) = elim (is_empty buffer) [
  | true ↦ []
  | false ↦ buffer ++ bytes_read reads
]

-- The whole method.
unfoldable pub take_lines : List Text → FifoReader → List Text × FifoReader
unfolding append_reads
take_lines reads f =
    let (lines, left) = split_lines (append_reads reads f.pending) in
    (lines, record f { pending = left })

-- The lines of each round, where its reads are given.
unfoldable pub lines_of : List (List Text × ℕ) → FifoReader → List (List Text × ℕ)
lines_of [] f = []
lines_of ((reads, left) ∷ rounds) f =
    let (lines, g) = take_lines reads f in (lines, left) ∷ lines_of rounds g

append_reads-bytes :
    (reads : List Text) (pending : Text) → append_reads reads pending ≡ pending ++ bytes_read reads
unfolding append_reads bytes_read
append_reads-bytes [] pending = sym (append-nil pending)
append_reads-bytes ([] ∷ reads) pending = sym (append-nil pending)
append_reads-bytes ((c ∷ buffer) ∷ reads) pending =
    append_reads-bytes reads (pending ++ (c ∷ buffer))
    ∙ append_assoc pending (c ∷ buffer) (bytes_read reads)

-- However the bytes were cut into buffers, a call gives the lines of them all behind what was pending,
-- and leaves the path and the descriptors as they were.
pub take_lines-read_lines :
    (reads : List Text) (f : FifoReader)
    → let (lines, left) = read_lines (bytes_read reads) f.pending in
      take_lines reads f ≡ (lines, record f { pending = left })
unfolding take_lines read_lines
take_lines-read_lines reads f =
    ap (λ (t : Text). ((split_lines t).0, record f { pending = (split_lines t).1 }))
      (append_reads-bytes reads f.pending)

module _ {S : Type 0} (os : Posix S) where
  unfoldable pub opened_read : Text → Option ℕ × S → Result FifoReader × S
  opened_read path (none, s) =
      (err (runtime_error (codes "failed to open FIFO for reading: " ++ path)), s)
  opened_read path (some fd, s) =
      let (keepalive, t) = os.open_write path s in
      (ok (record { path = path; read_fd = some fd; keepalive_fd = keepalive; pending = [] }), t)

  unfoldable pub made : Text → Bool × S → Result FifoReader × S
  unfolding opened_read
  made path (false, s) = (err (runtime_error (codes "failed to create FIFO: " ++ path)), s)
  made path (true, s) = opened_read path (os.open_read path s)

  -- The constructor.
  unfoldable pub open_fifo : Text → Action S FifoReader
  unfolding made
  open_fifo path s = made path (os.mkfifo path (os.unlink path s))

  abbrev pub close_if_open : Option ℕ → S → S
  close_if_open none s = s
  close_if_open (some fd) s = os.close fd s

  -- The destructor.
  unfoldable pub close_fifo : FifoReader → S → S
  close_fifo f s = os.unlink f.path (close_if_open f.read_fd (close_if_open f.keepalive_fd s))
