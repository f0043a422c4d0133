-- ===== src/File/Control/Protocol.antt =====
-- What opening and closing do to a file that is open already, or not open, and the error numbers that
-- `create` takes for each other.
use Prim.Native.String.{String}
use Prim.Native.Nat.{bit_or}
use jnet_lib.Base.{ℕ, ◌≡◌, refl, Bool, true, false, none, some}
use jnet_lib.Errors.{ErrorCode, frame_error}
use jnet_lib.Errors.Code
use jnet_lib.Posix.{failed, Fd, Files}
use jnet_lib.Posix.Errno
use jnet_lib.File.Calls.{file-failed, close_file-fd}
use jnet_lib.File.Control.{
  create_new, open_existing, mode_flags, advance_open, close, create, create_existing, open_file,
  open_then, to_end_if,
}

module _ (os : Files) where
  open os use {State}

  -- The file is left open, the system is not called, and the error says so.
  abbrev Refused : State → Fd → State × Fd × ErrorCode → Type 0
  Refused st fd r = r ≡ (st, fd, frame_error Code.already_open)

  create-Refused :
      (st : State) (fd : ℕ) (name : String) (anyway cut append : Bool) (access : ℕ)
      → Refused st (some fd) (create os st (some fd) name anyway cut append access)
  unfolding create advance_open create_existing
  create-Refused st fd name false cut append access = refl
  create-Refused st fd name true true append access = refl
  create-Refused st fd name true false append access = refl

  open-Refused :
      (st : State) (fd : ℕ) (name : String) (anyway cut append : Bool) (access : ℕ)
      → Refused st (some fd) (open_file os st (some fd) name anyway cut append access)
  unfolding open_file advance_open open_then
  open-Refused st fd name false true append access = refl
  open-Refused st fd name false false append access = refl
  open-Refused st fd name true cut append access = refl

  -- On an open file create and open, with all options, call nothing, keep the descriptor and
  -- report that it is open; close reports a file that is not open, and leaves an open one
  -- without a descriptor.
  pub opens-Refused :
      (st : State) (fd : ℕ) (name : String) (anyway cut append : Bool) (access : ℕ)
      → Refused st (some fd) (create os st (some fd) name anyway cut append access)
        × Refused st (some fd) (open_file os st (some fd) name anyway cut append access)
        × (close os st none ≡ (st, none, frame_error Code.not_open))
        × ((close os st (some fd)).1 ≡ none)
  unfolding close
  opens-Refused st fd name anyway cut append access = (
    create-Refused st fd name anyway cut append access,
    open-Refused st fd name anyway cut append access,
    refl,
    close_file-fd os st (some fd),
  )

  -- If the call of open in create, with create_anyway and without truncate, is interrupted
  -- (EINTR), create goes on as if the file existed, and opens it without O_CREAT.
  pub create-intr :
      (st st' : State) (name : String) (append : Bool) (access : ℕ)
      → os.open_file st name (bit_or access (mode_flags create_new)) ≡ (st', failed Errno.intr)
      → create os st none name true false append access
        ≡ to_end_if os append (advance_open os st' none name access open_existing)
  unfolding create advance_open create_existing
  create-intr st st' name append access e =
      rw (file-failed os name access (mode_flags create_new) Errno.intr e) refl
