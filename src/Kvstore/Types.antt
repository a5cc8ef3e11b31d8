-- ===== src/Kvstore/Types.antt =====
-- kvstore/store.go: the records, constants and errors of the engine.
use kvraft.Base.{◌⊎◌, inl, inr, ℕ, ◌≡◌, refl, Bool, Bytes, codes}
use kvraft.Base.Int.{ℤ}

-- The errors that the engine returns. `eof` and `unexpected_eof` are io's, `closed` is os's, and
-- `io_error` stands for any other failure of a system call.
pub data Error : Type 0 where
  eof unexpected_eof corrupt_data key_not_found read_only writer_locked closed : Error
  reserved_value no_active_file bad_layout io_error : Error

pub data Result {ℓ} (A : Type ℓ) : Type ℓ where
  ok : A → Result A
  err : Error → Result A

-- The first error ends a chain of calls.
infixl 5 ◌>>=◌
abbrev pub ◌>>=◌ {ℓ κ} : {S : Type ℓ} {T : Type κ} → Result S → (S → Result T) → Result T
err e >>= _ = err e
ok s >>= continue = continue s

-- A chain that succeeds got through its first call.
pub >>=-eq-ok {ℓ κ} :
    {S : Type ℓ} {T : Type κ} (first : Result S) (continue : S → Result T) {t : T}
    → (first >>= continue) ≡ ok t
    → (s : S) × (first ≡ ok s) × (continue s ≡ ok t)
>>=-eq-ok (err _) continue h = cc
>>=-eq-ok (ok s) continue h = (s, refl, h)

abbrev pub tombstone_value : Bytes
tombstone_value = codes "__bitcask_tombstone__"

pub record OpenOptions : Type 0 where
  pub read_write : Bool
  pub sync_on_put : Bool
  pub max_data_file_size_bytes : ℤ

pub record KeyDirEntry : Type 0 where
  pub file_id : ℕ
  pub file_offset : ℤ
  pub record_size : ℕ
  pub time_stamp : ℤ

pub record DecodedRecord : Type 0 where
  pub timestamp : ℤ
  pub key : Bytes
  pub value : Bytes

pub record HintRecord : Type 0 where
  pub timestamp : ℤ
  pub key : Bytes
  pub record_off : ℤ
  pub record_size : ℕ
  pub tombstone : Bool

pub Result-cases {ℓ} :
    {A : Type ℓ} (r : Result A) → ((a : A) × (r ≡ ok a)) ⊎ ((e : Error) × (r ≡ err e))
Result-cases (ok a) = inl (a, refl)
Result-cases (err e) = inr (e, refl)
