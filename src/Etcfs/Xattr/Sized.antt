-- ===== src/Etcfs/Xattr/Sized.antt =====
-- The sizes that `m_getxattr` of src/etcfs/etcfs.c answers with.
use bedrocklinux_userland.Base.{
  ℕ, ◌≤◌, ◌<◌, ◌≡◌, ◌⊎◌, inl, inr, refl, ◌∙◌, true, ◌||◌, [], ◌∷◌, ◌++◌, length, if◌then◌else◌, leb,
  pos, neg, arith, Bool-cases,
}
use bedrocklinux_userland.CString.{Bytes, str_eq}
use bedrocklinux_userland.Crossfs.Paths.{path_max}
use bedrocklinux_userland.Etcfs.Config.{RefFd, global_ref}
use bedrocklinux_userland.Etcfs.Handlers.{erange, cfg_name, same_ref}
use bedrocklinux_userland.Etcfs.Xattr.{
  e2big, stratum_xattr, lpath_xattr, global_stratum, rootdir, Answer, replies, past, answer, Opened,
  refused, opened, Calls, local_path, file_xattr, m_getxattr,
}

-- How a text is answered: size 0 asks for its length, which takes one byte less than the text does; a
-- smaller buffer is refused, and one of just that length is overrun.
pub record Protocol (text : Bytes) (get : ℕ → Answer) : Type 0 where
  pub asked : get 0 ≡ replies (pos (length text)) []
  pub smaller : (size : ℕ) → 1 ≤ size → size < length text → get size ≡ replies (neg erange) []
  pub equal : (size : ℕ) → 1 ≤ size → size ≡ length text → get size ≡ past
  pub larger :
      (size : ℕ) → length text < size → get size ≡ replies (pos (length text)) (text ++ (0 ∷ []))

answer-Protocol : (text : Bytes) → Protocol text (answer text)
unfolding answer
answer-Protocol text = record {
  asked = refl;
  smaller = λ size h l. ground arith;
  equal = λ size h e. ground arith;
  larger = λ size l. ground arith;
}

-- The stratum that provides the file, or the path of the file in it.
abbrev pub text_of : Calls → RefFd → Bytes → Bytes → Bytes → Bytes
text_of k ref path name rpath =
    if str_eq stratum_xattr name
    then if str_eq rpath cfg_name || same_ref ref global_ref then global_stratum else k.local_name
    else if str_eq rpath cfg_name
    then rootdir
    else k.mntpt ++ path

abbrev pub Ends : Bytes → (ℕ → Answer) → Type 0
Ends text get = Protocol text get ⊎ ((e : ℕ) × ((size : ℕ) → get size ≡ replies (neg e) []))

Protocol-same :
    (text : Bytes) (get : ℕ → Answer)
    → ((size : ℕ) → get size ≡ answer text size)
    → Protocol text get
Protocol-same text get h =
    let p = answer-Protocol text in
    record {
      asked = h 0 ∙ p.asked;
      smaller = λ size a b. h size ∙ p.smaller size a b;
      equal = λ size a b. h size ∙ p.equal size a b;
      larger = λ size a. h size ∙ p.larger size a;
    }

module _ (k : Calls) (ref : RefFd) (path name : Bytes) where
  local_path-Ends : Ends (k.mntpt ++ path) (λ size. local_path k ref path name size)
  unfolding local_path
  local_path-Ends = elim (Bool-cases (leb path_max (length (k.mntpt ++ path)))) [
    | inl t ↦ inr (e2big, λ size. rw t refl)
    | inr f ↦ inl (Protocol-same (k.mntpt ++ path) _ (λ size. rw f refl))
  ]

  -- After `openat`.
  file_xattr-Ends :
      (o : Opened)
      → (str_eq stratum_xattr name || str_eq lpath_xattr name) ≡ true
      → Ends
          (if str_eq stratum_xattr name
            then if same_ref ref global_ref then global_stratum else k.local_name
            else k.mntpt ++ path)
          (λ size. file_xattr k ref path name size o)
  unfolding file_xattr
  file_xattr-Ends (refused e) own = inr (e, λ size. refl)
  file_xattr-Ends (opened fd) own = elim (Bool-cases (str_eq stratum_xattr name)) [
    | inl t ↦ elim (Bool-cases (same_ref ref global_ref)) [
      | inl g ↦ rw (t, g) (inl (answer-Protocol global_stratum))
      | inr n ↦ rw (t, n) (inl (answer-Protocol k.local_name))
    ]
    | inr f ↦
        let lpath : str_eq lpath_xattr name ≡ true = rw f at own in rw (f, lpath) local_path-Ends
  ]

  -- For the two attributes of Bedrock Linux: `m_getxattr` fails with the same error for every size; or
  -- its text is the stratum, "global" for a global file and for the configuration file, or else the
  -- path, "/" for the configuration file; size 0 gets the length of the text, a smaller size -ERANGE,
  -- a larger size the text and its NUL inside the buffer; and a size of just that length makes it
  -- write the NUL behind the buffer.
  pub m_getxattr-Ends :
      (rpath : Bytes)
      → (str_eq stratum_xattr name || str_eq lpath_xattr name) ≡ true
      → Ends (text_of k ref path name rpath) (λ size. m_getxattr k ref path name size rpath)
  unfolding m_getxattr
  m_getxattr-Ends rpath own = elim (Bool-cases (str_eq rpath cfg_name)) [
    | inr n ↦ rw n (file_xattr-Ends k.open_file own)
    | inl c ↦ elim (Bool-cases (str_eq stratum_xattr name)) [
      | inl t ↦ rw (c, t) (inl (answer-Protocol global_stratum))
      | inr f ↦
          let lpath : str_eq lpath_xattr name ≡ true = rw f at own in
          rw (c, f, lpath) (inl (answer-Protocol rootdir))
    ]
  ]
