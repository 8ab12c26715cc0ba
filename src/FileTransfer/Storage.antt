-- ===== src/FileTransfer/Storage.antt =====
-- What the handlers of src/CrossPointWebServer.cpp ask of storage and of the upload status, as
-- programs of calls. `HalStorage` is a parameter: a program goes on with whatever it answers.
use crosspoint_simulator.Prelude.{ℕ, Bool, List, Option, Bytes}

-- What `getName` leaves in its buffer for a file that `openNextFile` returns, and what else is asked
-- of that file.
pub record Entry : Type 0 where
  pub name : Bytes
  pub directory : Bool
  pub size : ℕ

-- An open file: what `openNextFile` returns in turn, and what the calls of `read` return in turn
-- until nothing is available or one returns nothing.
pub record Opened : Type 0 where
  pub directory : Bool
  pub size : ℕ
  pub entries : List Entry
  pub reads : List Bytes

-- `write_to` opens a file for writing, writes to it and closes it; `copy_to` is `copyPath`. The
-- paths are C strings. The last two calls are the sections under `uploadMutex`.
pub data Call : Type 0 where
  exists open_at make_dir remove_file remove_dir : Bytes → Call
  rename_to copy_to write_to : Bytes → Bytes → Call
  begin_upload : Bytes → ℕ → Call
  end_upload : Bool → Bytes → ℕ → Call

-- `none` of `open_at` is a file that is not open, of `write_to` one that cannot be opened; else it
-- answers how many bytes were written.
abbrev pub Answer : Call → Type 0
Answer (exists p) = Bool
Answer (open_at p) = Option Opened
Answer (make_dir p) = Bool
Answer (remove_file p) = Bool
Answer (remove_dir p) = Bool
Answer (rename_to p q) = Bool
Answer (copy_to p q) = Bool
Answer (write_to p bytes) = Option ℕ
Answer (begin_upload name total) = Unit {0}
Answer (end_upload ok name size) = Unit {0}

pub data Program (A : Type 0) : Type 0 where
  done : A → Program A
  ask : (c : Call) → (Answer c → Program A) → Program A

-- Each call of every run has a property, whatever is answered.
abbrev pub Every : {A : Type 0} → (Call → Type 0) → Program A → Type 0
Every P (done a) = Unit
Every P (ask c k) = P c × ((a : Answer c) → Every P (k a))
