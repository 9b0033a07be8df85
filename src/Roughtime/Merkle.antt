-- ===== src/Roughtime/Merkle.antt =====
-- The Merkle path of a Roughtime response (src/roughtime_source.ts).
use mathlib.Core.Path.{ap₂}
use native.Mathlib.Nat.{one-le-pow}
use native.Mathlib.Omega.{pow_step}
use open_ttt.Prelude.{
  ℕ, suc, zero, ◌+◌, ◌-◌, ◌*◌, ◌/◌, ◌%◌, ◌^◌, ◌<◌, ◌≤◌, ◌≡◌, refl, sym, ap, ◌∙◌, List, [], ◌∷◌,
  ◌++◌, Text, length, drop, take, subarray, leb, ◌==◌, if◌then◌else◌, arith, All, take-append,
  drop-append, length-append, drop-drop, length-drop, All-append,
}

-- The index as `>>=` leaves it: the source shifts a signed 32-bit integer, so that an index with
-- its top bit set never gets to 0.
unfoldable pub shift_right : ℕ → ℕ
shift_right i = if leb 2147483648 i then i / 2 + 2147483648 else i / 2

-- A Merkle tree over requests, in which a server places the requests that it answers together.
pub data Tree : Type 0 where
  leaf : Text → Tree
  node : Tree → Tree → Tree

abbrev pub concat : List Text → Text
concat [] = []
concat (n ∷ ns) = n ++ concat ns

abbrev pub HasSize32 : Text → Type 0
HasSize32 n = length n ≡ 32

module _ (rt_hash : Text → Text) where
  -- One step: the node is on the right of the hash so far if the index is even.
  unfoldable pub join : ℕ → Text → Text → Text
  join i cur n = if i % 2 == 0 then rt_hash (1 ∷ (cur ++ n)) else rt_hash (1 ∷ (n ++ cur))

  -- The loop over the 32-byte nodes from `pos` on, and the index that is left.
  unfoldable pub walk : ℕ → Text → ℕ → ℕ → Text → Text × ℕ
  unfolding join shift_right
  walk zero path pos i cur = (cur, i)
  walk (suc fuel) path pos i cur =
      let later =
        walk fuel path (pos + 32) (shift_right i) (join i cur (subarray pos (pos + 32) path)) in
      if leb (pos + 32) (length path) then later else (cur, i)

  -- The leaf is the hash of the request.
  unfoldable pub merkle_root : Text → ℕ → Text → Text × ℕ
  unfolding walk
  merkle_root request i path = walk (length path) path 0 i (rt_hash (0 ∷ request))

  unfoldable pub root_of : Tree → Text
  root_of (leaf request) = rt_hash (0 ∷ request)
  root_of (node l r) = rt_hash (1 ∷ (root_of l ++ root_of r))

  -- A request in a tree: its depth, its index, and the siblings on the way up.
  pub data IsAt (request : Text) : Tree → ℕ → ℕ → List Text → Type 0 where
    here : IsAt request (leaf request) 0 0 []
    left :
        (l r : Tree) (d i : ℕ) (ns : List Text)
        → IsAt request l d i ns
        → IsAt request (node l r) (suc d) i (ns ++ root_of r ∷ [])
    right :
        (l r : Tree) (d i : ℕ) (ns : List Text)
        → IsAt request r d i ns
        → IsAt request (node l r) (suc d) (i + 2 ^ d) (ns ++ root_of l ∷ [])

  climb : List Text → ℕ → Text → Text × ℕ
  climb [] i cur = (cur, i)
  climb (n ∷ ns) i cur = climb ns (shift_right i) (join i cur n)

  climb_last :
      (ns : List Text) (n : Text) (i k : ℕ) (cur c : Text)
      → climb ns i cur ≡ (c, k)
      → climb (ns ++ n ∷ []) i cur ≡ (join k c n, shift_right k)
  unfolding climb
  climb_last [] n i k cur c e = ap (λ p. (join p.1 p.0 n, shift_right p.1)) e
  climb_last (m ∷ ns) n i k cur c e = climb_last ns n (shift_right i) k (join i cur m) c e

  join_even : (b : ℕ) (c n : Text) → join (2 * b) c n ≡ rt_hash (1 ∷ (c ++ n))
  unfolding join
  join_even b c n = ground arith

  join_odd : (b : ℕ) (c n : Text) → join (2 * b + 1) c n ≡ rt_hash (1 ∷ (n ++ c))
  unfolding join
  join_odd b c n = ground arith

  shift_even : (b : ℕ) → 2 * b < 2147483648 → shift_right (2 * b) ≡ b
  unfolding shift_right
  shift_even b h = ground arith

  shift_odd : (b : ℕ) → 2 * b + 1 < 2147483648 → shift_right (2 * b + 1) ≡ b
  unfolding shift_right
  shift_odd b h = ground arith

  -- One level up, to a left and to a right child.
  up_left :
      (ns : List Text) (n c cur : Text) (i b : ℕ)
      → 2 * b < 2147483648
      → climb ns i cur ≡ (c, 2 * b)
      → climb (ns ++ n ∷ []) i cur ≡ (rt_hash (1 ∷ (c ++ n)), b)
  up_left ns n c cur i b h e =
      climb_last ns n i (2 * b) cur c e ∙ ap₂ (λ x y. (x, y)) (join_even b c n) (shift_even b h)

  up_right :
      (ns : List Text) (n c cur : Text) (i b : ℕ)
      → 2 * b + 1 < 2147483648
      → climb ns i cur ≡ (c, 2 * b + 1)
      → climb (ns ++ n ∷ []) i cur ≡ (rt_hash (1 ∷ (n ++ c)), b)
  up_right ns n c cur i b h e =
      climb_last ns n i (2 * b + 1) cur c e ∙ ap₂ (λ x y. (x, y)) (join_odd b c n) (shift_odd b h)

  -- The indices of the two children.
  index_left : (p q b i : ℕ) → q ≡ 2 * p → i + q * b ≡ i + p * (2 * b)
  index_left p q b i e = rw e (omega arith)

  index_right : (p q b i : ℕ) → q ≡ 2 * p → i + p + q * b ≡ i + p * (2 * b + 1)
  index_right p q b i e = rw e (omega arith)

  higher : (p b i : ℕ) → 0 < p → b ≤ i + p * b
  higher zero b i h = absurd (omega arith)
  higher (suc p) b i h = omega arith

  climb-IsAt :
      (request : Text) (t : Tree) (d i b : ℕ) (ns : List Text)
      → IsAt request t d i ns
      → i + 2 ^ d * b < 2147483648
      → climb ns (i + 2 ^ d * b) (rt_hash (0 ∷ request)) ≡ (root_of t, b)
  unfolding root_of climb
  climb-IsAt request (leaf _) _ _ b _ here h =
      let only : 0 + 1 * b ≡ b = omega arith in ap (λ k. (rt_hash (0 ∷ request), k)) only
  climb-IsAt request (node _ _) _ _ b _ (left l r d i ns at) h =
      let same : i + 2 ^ suc d * b ≡ i + 2 ^ d * (2 * b) =
        index_left (2 ^ d) (2 ^ suc d) b i (pow_step 2 d) in
      let small : i + 2 ^ d * (2 * b) < 2147483648 = rw (← same) h in
      ap (λ k. climb (ns ++ root_of r ∷ []) k (rt_hash (0 ∷ request))) same
      ∙ up_left ns (root_of r) (root_of l) (rt_hash (0 ∷ request)) (i + 2 ^ d * (2 * b)) b
          (omega (arith, higher (2 ^ d) (2 * b) i (one-le-pow d 2 (omega arith))))
          (climb-IsAt request l d i (2 * b) ns at small)
  climb-IsAt request (node _ _) _ _ b _ (right l r d i ns at) h =
      let same : i + 2 ^ d + 2 ^ suc d * b ≡ i + 2 ^ d * (2 * b + 1) =
        index_right (2 ^ d) (2 ^ suc d) b i (pow_step 2 d) in
      let small : i + 2 ^ d * (2 * b + 1) < 2147483648 = rw (← same) h in
      ap (λ k. climb (ns ++ root_of l ∷ []) k (rt_hash (0 ∷ request))) same
      ∙ up_right ns (root_of l) (root_of r) (rt_hash (0 ∷ request)) (i + 2 ^ d * (2 * b + 1)) b
          (omega (arith, higher (2 ^ d) (2 * b + 1) i (one-le-pow d 2 (omega arith))))
          (climb-IsAt request r d i (2 * b + 1) ns at small)

  walk_end :
      (fuel pos i : ℕ) (path cur : Text)
      → length path < pos + 32
      → walk fuel path pos i cur ≡ (cur, i)
  unfolding walk
  walk_end zero pos i path cur h = refl
  walk_end (suc fuel) pos i path cur h = ground arith

  walk_step :
      (fuel pos i : ℕ) (path cur n : Text)
      → pos + 32 ≤ length path
      → subarray pos (pos + 32) path ≡ n
      → walk (suc fuel) path pos i cur ≡ walk fuel path (pos + 32) (shift_right i) (join i cur n)
  unfolding walk
  walk_step fuel pos i path cur n h e = rw e (ground arith)

  size_left :
      (pos : ℕ) (path n rest : Text)
      → drop pos path ≡ n ++ rest
      → pos ≤ length path
      → length path ≡ pos + (length n + length rest)
  size_left pos path n rest e h =
      omega (arith, ap length e, length-append n rest, length-drop pos path)

  walk-climb :
      (ns : List Text) (fuel pos i : ℕ) (path cur : Text)
      → drop pos path ≡ concat ns
      → pos ≤ length path
      → length (concat ns) ≤ fuel
      → All HasSize32 ns
      → walk fuel path pos i cur ≡ climb ns i cur
  unfolding climb
  walk-climb [] fuel pos i path cur e h f a =
      walk_end fuel pos i path cur (omega (arith, ap length e, length-drop pos path))
  walk-climb (n ∷ ns) zero pos i path cur e h f (a, as') =
      absurd (omega (arith, length-append n (concat ns)))
  walk-climb (n ∷ ns) (suc fuel) pos i path cur e h f (a, as') =
      let size = size_left pos path n (concat ns) e h in
      let width : pos + 32 - pos ≡ 32 = omega arith in
      walk_step fuel pos i path cur n (omega arith)
        (ap (λ k. take k (drop pos path)) width ∙ ap (take 32) e ∙ take-append n (concat ns) a)
      ∙ walk-climb ns fuel (pos + 32) (shift_right i) path (join i cur n)
          (sym (drop-drop 32 pos path) ∙ ap (drop 32) e ∙ drop-append n (concat ns) a) (omega arith)
          (omega (arith, length-append n (concat ns))) as'

  IsAt-sizes :
      (request : Text) (t : Tree) (d i : ℕ) (ns : List Text)
      → ((t' : Tree) → length (root_of t') ≡ 32)
      → IsAt request t d i ns
      → All HasSize32 ns
  IsAt-sizes request (leaf _) _ _ _ size here = tt
  IsAt-sizes request (node _ _) _ _ _ size (left l r d i ns at) =
      All-append HasSize32 ns (root_of r ∷ []) (IsAt-sizes request l d i ns size at) (size r, tt)
  IsAt-sizes request (node _ _) _ _ _ size (right l r d i ns at) =
      All-append HasSize32 ns (root_of l ∷ []) (IsAt-sizes request r d i ns size at) (size l, tt)

  root_of-size : ((x : Text) → length (rt_hash x) ≡ 32) → (t : Tree) → length (root_of t) ≡ 32
  unfolding root_of
  root_of-size h (leaf request) = h (0 ∷ request)
  root_of-size h (node l r) = h (1 ∷ (root_of l ++ root_of r))

  -- A server that puts the request at an index below 2^31 of any Merkle tree, and sends the index
  -- and the siblings on the way to the root, is believed: the walk over that path computes the
  -- tree's root and leaves the index 0, if hashes have 32 bytes.
  pub merkle_root-IsAt :
      (request : Text) (t : Tree) (d i : ℕ) (ns : List Text)
      → ((x : Text) → length (rt_hash x) ≡ 32)
      → IsAt request t d i ns
      → i < 2147483648
      → merkle_root request i (concat ns) ≡ (root_of t, 0)
  unfolding merkle_root
  merkle_root-IsAt request t d i ns size at h =
      let low : i + 2 ^ d * 0 ≡ i = omega arith in
      let small : i + 2 ^ d * 0 < 2147483648 = omega arith in
      walk-climb ns (length (concat ns)) 0 i (concat ns) (rt_hash (0 ∷ request)) refl (omega arith)
        (omega arith) (IsAt-sizes request t d i ns (root_of-size size) at)
      ∙ ap (λ k. climb ns k (rt_hash (0 ∷ request))) (sym low)
      ∙ climb-IsAt request t d i 0 ns at small
