-- ===== src/Sys.antt =====
-- What the driver takes from its surroundings: I/O errors (`std::io::Error`) and the Linux errnos
-- that it names through `libc`.
use uring.Prelude.{ℕ, Bool, false, Option, none, some, String, ◌==◌, ◌≡◌, refl, ◌⊎◌, inl, inr}

pub data ErrorKind : Type 0 where
  invalid_input would_block invalid_data other : ErrorKind

-- `io::Error::from_raw_os_error` and `io::Error::new`.
pub data IoError : Type 0 where
  os : ℕ → IoError
  custom : ErrorKind → String → IoError

abbrev pub raw_os_error : IoError → Option ℕ
raw_os_error (os n) = some n
raw_os_error (custom k s) = none

pub data IoResult {ℓ} (A : Type ℓ) : Type ℓ where
  ok : A → IoResult A
  err : IoError → IoResult A

pub IoResult-cases {ℓ} :
    {A : Type ℓ} (r : IoResult A) → ((a : A) × (r ≡ ok a)) ⊎ ((e : IoError) × (r ≡ err e))
IoResult-cases (ok a) = inl (a, refl)
IoResult-cases (err e) = inr (e, refl)

infixl 5 ◌>>=◌
abbrev pub ◌>>=◌ {ℓ κ} : {A : Type ℓ} {B : Type κ} → IoResult A → (A → IoResult B) → IoResult B
ok a >>= f = f a
err e >>= f = err e

abbrev pub errno_is : IoError → ℕ → Bool
errno_is (os n) m = n == m
errno_is (custom k s) m = false

abbrev pub eperm : ℕ
eperm = 1

abbrev pub enoent : ℕ
enoent = 2

abbrev pub eintr : ℕ
eintr = 4

abbrev pub eagain : ℕ
eagain = 11

abbrev pub eacces : ℕ
eacces = 13

abbrev pub ebusy : ℕ
ebusy = 16

abbrev pub einval : ℕ
einval = 22

abbrev pub enosys : ℕ
enosys = 38

abbrev pub etime : ℕ
etime = 62

abbrev pub eopnotsupp : ℕ
eopnotsupp = 95

abbrev pub ealready : ℕ
ealready = 114

abbrev pub ecanceled : ℕ
ecanceled = 125
