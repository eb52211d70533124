-- ===== src/Etcfs/Handlers/Finished.antt =====
-- What the handlers of src/etcfs/etcfs.c return, and the calls that they make on a descriptor.
use bedrocklinux_userland.Base.{
  if◌then◌else◌, pos, ◌<◌, ◌≤◌, leb, arith, ℕ, ◌≡◌, ◌⊎◌, inl, inr, refl, true, false, List, [], ◌∷◌,
  ℤ, negsuc, neg, is_neg, Bool-cases,
}
use bedrocklinux_userland.Etcfs.Serve.{fs_imp_return}
use bedrocklinux_userland.Etcfs.Caller.{Credentials}
use bedrocklinux_userland.Etcfs.Handlers.{FdCall, Kernel, Finish, returned, on_opened}
use bedrocklinux_userland.Etcfs.Handlers.Requests.{unread}

-- How a handler ends behind its call with a path: it returns the result; or 0; or 0 if the result is
-- less than a size; or it makes a call on the descriptor and returns that result.
pub data EndingBy : Type 0 where
  as_is zero_rv : EndingBy
  within : ℕ → EndingBy
  then_do : FdCall → EndingBy

-- What the handler returns, and its calls on a descriptor, for a call that did not fail.
abbrev pub Worked :
    Kernel → Credentials → EndingBy → ℤ → ℤ × List (FdCall × Credentials) → ℕ → Type 0
Worked k creds as_is n (rv, calls) errno = (rv ≡ n) × (calls ≡ [])
Worked k creds zero_rv n (rv, calls) errno = (rv ≡ pos 0) × (calls ≡ [])
Worked k creds (within size) n (rv, calls) errno =
    (((read : ℕ) × (n ≡ pos read)
      × (((read < size) × (rv ≡ pos 0)) ⊎ ((size ≤ read) × (rv ≡ neg errno)))))
    × (calls ≡ [])
Worked k creds (then_do call) n (rv, calls) errno =
    (rv ≡ returned (k.on_fd call creds)) × (calls ≡ (call, creds) ∷ [])

-- It returns `errno` negated and makes no call on a descriptor where the call with a path fails.
abbrev pub Finished :
    Kernel → Credentials → EndingBy → ℤ × ℕ → ℤ × List (FdCall × Credentials) → Type 0
Finished k creds how (n, errno) out =
    ((is_neg n ≡ true) × (out.0 ≡ neg errno) × (out.1 ≡ []))
    ⊎ ((is_neg n ≡ false) × Worked k creds how n out errno)

-- Such an ending, by the code.
abbrev pub finish_by : Kernel → EndingBy → Finish
finish_by k as_is creds r = (returned r, [])
finish_by k zero_rv creds (n, errno) = (if is_neg n then neg errno else pos 0, [])
finish_by k (within size) creds (n, errno) = (if unread size n then neg errno else pos 0, [])
finish_by k (then_do call) creds r = on_opened k call creds r

pub finish_by-Finished :
    (k : Kernel) (how : EndingBy) (creds : Credentials) (r : ℤ × ℕ)
    → Finished k creds how r (finish_by k how creds r)
unfolding fs_imp_return
finish_by-Finished k as_is creds (n, errno) = elim (Bool-cases (is_neg n)) [
  | inl t ↦ inl (t, rw t refl, refl)
  | inr f ↦ inr (f, (rw f refl, refl))
]
finish_by-Finished k zero_rv creds (n, errno) = elim (Bool-cases (is_neg n)) [
  | inl t ↦ inl (t, rw t refl, refl)
  | inr f ↦ inr (f, (rw f refl, refl))
]
finish_by-Finished k (within size) creds (negsuc n, errno) = inl (refl, refl, refl)
finish_by-Finished k (within size) creds (pos n, errno) = elim (Bool-cases (leb size n)) [
  | inl t ↦ inr (refl, ((n, refl, inr (ground arith, rw t refl)), refl))
  | inr f ↦ inr (refl, ((n, refl, inl (ground arith, rw f refl)), refl))
]
finish_by-Finished k (then_do call) creds (n, errno) = elim (Bool-cases (is_neg n)) [
  | inl t ↦ inl (t, rw t refl, rw t refl)
  | inr f ↦ inr (f, (rw f refl, rw f refl))
]
