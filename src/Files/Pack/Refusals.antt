-- ===== src/Files/Pack/Refusals.antt =====
-- When a batch is packed, and with which error it is refused.
use mathlib.Core.Path.{subst}
use beaglewing.Common.Bytes.{Bytes}
use beaglewing.Files.Batch.Totals.{batch_size, size_of, total_of, wrapped, batch_signature-size}
use beaglewing.Files.Pack.{
  Packed, ok, err, unreadable, no_basename, io, over_cap, Tar, append_node, append_named,
  append_all, pack, or_io, then_rest, within, checked,
}
use beaglewing.Files.Tree.{FilePath, file_name, Node, missing, locked, special, file, dir}
use beaglewing.Common.{
  ltb, if-cases, Option-cases, All, ℕ, ◌*◌, ◌/◌, ◌%◌, ◌^◌, ◌≤◌, ◌<◌, ◌≡◌, refl, sym, ◌≢◌, inl, inr,
  Option, none, some, List, [], ◌∷◌, arith,
}

-- The tar crate reports no error.
pub record IsWorking {B : Type 0} (tar : Tar B) : Type 0 where
  pub dirs : (n : Bytes) (p : FilePath) (b : B) → (c : B) × (tar.append_dir_all n p b ≡ some c)
  pub files :
      (p : FilePath) (n : Bytes) (b : B) → (c : B) × (tar.append_path_with_name p n b ≡ some c)
  pub ends : (b : B) → (a : Bytes) × (tar.into_inner b ≡ some a)

abbrev pub IsNamed : FilePath → Type 0
IsNamed p = file_name p ≢ none

module _ {B : Type 0} (lossy : Bytes → Bytes) (fs : FilePath → Node) (tar : Tar B) where
  -- How the appending of these paths ends.
  data IsAppended {A : Type 0} (ps : List FilePath) : Packed A → Type 0 where
    appended : {a : A} → All IsNamed ps → IsAppended ps (ok a)
    nameless : ¬ All IsNamed ps → IsAppended ps (err no_basename)
    broken : ¬ IsWorking tar → IsAppended ps (err io)

  or_io-IsAppended :
      {A : Type 0} {ps : List FilePath} (x : Option A)
      → All IsNamed ps
      → (IsWorking tar → (a : A) × (x ≡ some a))
      → IsAppended ps (or_io x)
  or_io-IsAppended none h w = broken (λ k. cc (w k).1)
  or_io-IsAppended (some a) h w = appended h

  append_node-IsAppended :
      (n : Node) (name : Bytes) (p : FilePath) (b : B)
      → size_of n ≢ none
      → IsNamed p
      → IsAppended (p ∷ []) (append_node lossy fs tar n name p b)
  unfolding append_node size_of
  append_node-IsAppended missing name p b r h = absurd (r refl)
  append_node-IsAppended locked name p b r h = absurd (r refl)
  append_node-IsAppended special name p b r h = or_io-IsAppended _ (h, tt) (λ k. k.files p name b)
  append_node-IsAppended (file size) name p b r h =
      or_io-IsAppended _ (h, tt) (λ k. k.files p name b)
  append_node-IsAppended (dir es) name p b r h = or_io-IsAppended _ (h, tt) (λ k. k.dirs name p b)

  append_named-IsAppended :
      (n : Option Bytes) (p : FilePath) (b : B)
      → n ≡ file_name p
      → size_of (fs p) ≢ none
      → IsAppended (p ∷ []) (append_named lossy fs tar n p b)
  unfolding append_named
  append_named-IsAppended none p b e r = nameless (λ h. h.0 (sym e))
  append_named-IsAppended (some n) p b e r = append_node-IsAppended (fs p) (lossy n) p b r (λ k. cc)

  then-IsAppended :
      {ps : List FilePath} (p : FilePath)
      → IsNamed p
      → (x : Packed Bytes) → IsAppended ps x
      → IsAppended (p ∷ ps) x
  then-IsAppended p h (ok a) (appended k) = appended (h, k)
  then-IsAppended p h (err e) (nameless z) = nameless (λ k. z k.1)
  then-IsAppended p h (err e) (broken w) = broken w

  then_rest-IsAppended :
      {ps : List FilePath} (p : FilePath) (x : Packed B) (rest : B → Packed Bytes)
      → IsAppended (p ∷ []) x
      → ((b : B) → IsAppended ps (rest b))
      → IsAppended (p ∷ ps) (then_rest x rest)
  then_rest-IsAppended p (ok b) rest (appended h) k = then-IsAppended p (h.0) (rest b) (k b)
  then_rest-IsAppended p (err e) rest (nameless z) k = nameless (λ n. z (n.0, tt))
  then_rest-IsAppended p (err e) rest (broken w) k = broken w

  append_all-IsAppended :
      (ps : List FilePath) (b : B)
      → batch_size fs ps ≢ none
      → IsAppended ps (append_all lossy fs tar ps b)
  unfolding append_all batch_size
  append_all-IsAppended [] b r = or_io-IsAppended _ tt (λ k. k.ends b)
  append_all-IsAppended (p ∷ ps) b r =
      then_rest-IsAppended p _ (append_all lossy fs tar ps)
        (append_named-IsAppended (file_name p) p b refl (λ e. ground (arith, r)))
        (λ c. append_all-IsAppended ps c (λ e. ground (arith, r)))

  -- What `pack` returns for a cap. `size` is the size of all files in the batch.
  pub data IsPacked (paths : List FilePath) (cap : ℕ) : Packed Bytes → Type 0 where
    unread : batch_size fs paths ≡ none → IsPacked paths cap (err unreadable)
    too_large :
        (size : ℕ)
        → batch_size fs paths ≡ some size
        → cap < size % 2 ^ 64
        → IsPacked paths cap (err (over_cap (size % 2 ^ 64 / (1024 * 1024)) (cap / (1024 * 1024))))
    nameless :
        (size : ℕ)
        → batch_size fs paths ≡ some size
        → size % 2 ^ 64 ≤ cap
        → ¬ All IsNamed paths
        → IsPacked paths cap (err no_basename)
    failed :
        (size : ℕ)
        → batch_size fs paths ≡ some size
        → size % 2 ^ 64 ≤ cap
        → ¬ IsWorking tar
        → IsPacked paths cap (err io)
    packed :
        {archive : Bytes} (size : ℕ)
        → batch_size fs paths ≡ some size
        → size % 2 ^ 64 ≤ cap
        → All IsNamed paths
        → IsPacked paths cap (ok archive)

  appended-IsPacked :
      {paths : List FilePath} {cap : ℕ} (size : ℕ)
      → batch_size fs paths ≡ some size
      → size % 2 ^ 64 ≤ cap
      → (x : Packed Bytes) → IsAppended paths x
      → IsPacked paths cap x
  appended-IsPacked size e h (ok a) (appended k) = packed size e h k
  appended-IsPacked size e h (err z) (IsAppended.nameless k) = IsPacked.nameless size e h k
  appended-IsPacked size e h (err z) (broken k) = failed size e h k

  checked-IsPacked :
      (paths : List FilePath) (cap : ℕ) (x : Option (ℕ × ℕ)) (archive : Packed Bytes)
      → total_of x ≡ wrapped (batch_size fs paths)
      → (batch_size fs paths ≢ none → IsAppended paths archive)
      → IsPacked paths cap (checked x cap archive)
  checked-IsPacked paths cap none archive e k = unread (ground arith)
  checked-IsPacked paths cap (some (sig, total)) archive e k =
      elim (Option-cases (batch_size fs paths)) [
        | inl no_size ↦ absurd (ground (arith, e, no_size))
        | inr (size, f) ↦
            let g : size % 2 ^ 64 ≡ total = ground (arith, e, f) in
            subst (λ t. IsPacked paths cap (within cap t archive)) g
              (if-cases (IsPacked paths cap) (ltb cap (size % 2 ^ 64))
                (λ h. IsPacked.too_large size f (ground arith))
                (λ h. appended-IsPacked size f (ground arith) archive (k (λ z. cc))))
      ]

  -- A batch is packed, or refused with the error that says why: something in it cannot be read; the
  -- sum of the sizes of its files, modulo 2 ^ 64, is over the cap; a path has no last name; or the tar
  -- crate reports an error. An archive is made only of a readable batch within the cap whose paths
  -- all have names.
  pub pack-IsPacked :
      (paths : List FilePath) (cap : ℕ) → IsPacked paths cap (pack lossy fs tar paths cap)
  unfolding pack
  pack-IsPacked paths cap =
      checked-IsPacked paths cap _ _ (batch_signature-size lossy fs paths)
        (append_all-IsAppended paths tar.empty)
