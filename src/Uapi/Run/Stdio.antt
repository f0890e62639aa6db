-- ===== src/Uapi/Run/Stdio.antt =====
-- uapi.c: `handle_wasm_run_code` up to the first `sema_init`: the request, and the files of the caller
-- that the runner is to have as its own.
use kernel_wasm.Base.{
  ℕ, ◌+◌, ◌≡◌, Bool, not, Option, none, some, List, [], ◌∷◌, ◌==◌, if◌then◌else◌, neg, arith,
}
use kernel_wasm.Kernel.{efault, einval}

-- `struct run_code_request`.
pub record RunCodeRequest : Type 0 where
  pub entry_offset : ℕ
  pub params : ℕ
  pub param_count : ℕ
  pub result : ℕ

-- `fget_raw` returned the file, and `fput` was given it. The last event stands first.
pub data Event : Type 0 where
  got : (file : ℕ) → Event
  put : (file : ℕ) → Event

-- The kernel's part: what `fget_raw` returns, and the error pointers.
pub record Descriptors : Type 0 where
  pub fget_raw : List Event → (fd : ℕ) → ℕ
  pub is_err : (p : ℕ) → Bool
  pub ptr_err : (p : ℕ) → ℕ

-- The handler has returned that error, or goes on with the request and the three files.
pub data Begun : Type 0 where
  rejected : (err : ℕ) → Begun
  begun : RunCodeRequest → (stdin stdout stderr : ℕ) → Begun

module _ (os : Descriptors) where
  -- The three calls of `fget_raw`.
  unfoldable pub take_stdio : RunCodeRequest → List Event → Begun × List Event
  take_stdio req log =
      let stdin = os.fget_raw log 0 in
      if os.is_err stdin
      then (Begun.rejected (os.ptr_err stdin), log)
      else let log₁ = Event.got stdin ∷ log in
        let stdout = os.fget_raw log₁ 1 in
        if os.is_err stdout
        then (Begun.rejected (os.ptr_err stdout), Event.put stdin ∷ log₁)
        else let log₂ = Event.got stdout ∷ log₁ in
          let stderr = os.fget_raw log₂ 2 in
          if os.is_err stderr
          then (Begun.rejected (os.ptr_err stderr), Event.put stdin ∷ Event.put stdout ∷ log₂)
          else (Begun.begun req stdin stdout stderr, Event.got stderr ∷ log₂)

  -- From the start on; the request is `none` if `copy_from_user` faults.
  unfoldable pub begin_run :
      Option RunCodeRequest → (ready : Bool) → List Event → Begun × List Event
  begin_run none ready log = (Begun.rejected (neg efault), log)
  begin_run (some req) ready log =
      if not ready then (Begun.rejected (neg einval), log) else take_stdio req log

-- How often the file was taken, and given back.
abbrev pub gets : (file : ℕ) → List Event → ℕ
gets file [] = 0
gets file (Event.got f ∷ log) = (if f == file then 1 else 0) + gets file log
gets file (_ ∷ log) = gets file log

abbrev pub puts : (file : ℕ) → List Event → ℕ
puts file [] = 0
puts file (Event.put f ∷ log) = (if f == file then 1 else 0) + puts file log
puts file (_ ∷ log) = puts file log

-- How many of the three files the handler holds as it goes on are that one.
abbrev pub keeps : (file : ℕ) → Begun → ℕ
keeps file (Begun.rejected err) = 0
keeps file (Begun.begun req a b c) =
    (if a == file then 1 else 0) + (if b == file then 1 else 0) + (if c == file then 1 else 0)

-- Up to the first semaphore the handler keeps, on every path, just the references that it goes on
-- with: a file was taken as much oftener than given back as it is one of the three files, and as often
-- if the handler returns.
pub begin_run_holds :
    (os : Descriptors) (request : Option RunCodeRequest) (ready : Bool) (log : List Event)
    (file : ℕ)
    → gets file (begin_run os request ready log).1 + puts file log
      ≡ puts file (begin_run os request ready log).1
        + gets file log
        + keeps file (begin_run os request ready log).0
unfolding begin_run take_stdio
begin_run_holds os none ready log file = ground arith
begin_run_holds os (some req) ready log file = ground arith
