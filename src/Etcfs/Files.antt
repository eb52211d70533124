-- ===== src/Etcfs/Files.antt =====
-- The files below a descriptor, to which src/etcfs/etcfs.c directs its calls.
use bedrocklinux_userland.Base.{
  ℕ, ◌++◌, take, replicate, ◌≡◌, ◌≢◌, refl, Option, if◌then◌else◌, Bool-cases, inl, inr,
}
use bedrocklinux_userland.CString.{Bytes, str_eq}
use bedrocklinux_userland.CString.Laws.{str_eq_iff, str_eq_refl}

-- What is at a path: a regular file with its bytes, a directory, a link with its target, or else.
pub data Node : Type 0 where
  file : Bytes → Node
  folder : Node
  link : Bytes → Node
  device : Node

abbrev pub Disk : Type 0
Disk = Bytes → Option Node

-- The files after a change at one path.
unfoldable pub put : Bytes → Option Node → Disk → Disk
put path v disk p = if str_eq p path then v else disk p

-- `ftruncate`: zeros where the file was shorter.
abbrev pub resize : ℕ → Bytes → Bytes
resize n s = take n (s ++ replicate n 0)

pub put-same : (path : Bytes) (v : Option Node) (disk : Disk) → put path v disk path ≡ v
unfolding put
put-same path v disk = rw (str_eq_refl path) refl

pub put-other :
    (path : Bytes) (v : Option Node) (disk : Disk) (p : Bytes)
    → p ≢ path
    → put path v disk p ≡ disk p
unfolding put
put-other path v disk p n = elim (Bool-cases (str_eq p path)) [
  | inl t ↦ absurd (n ((str_eq_iff p path).0 t))
  | inr f ↦ rw f refl
]
