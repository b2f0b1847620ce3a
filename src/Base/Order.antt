-- ===== src/Base/Order.antt =====
-- The lexicographic order of byte strings is a strict total order.
use Prim.Native.Nat.{Ordering}
use mathlib.Core.Path.{◌≡◌, refl}
use mathlib.Core.List.{[], ◌∷◌}
use native.Mathlib.Omega.{arith}
use oma_chat.Base.Text.{Bytes, bytes_cmp}

-- `a` stands before `b`.
abbrev pub BytesLt : Bytes → Bytes → Type 0
BytesLt a b = bytes_cmp a b ≡ Ordering.lt

pub bytes_cmp_refl : (a : Bytes) → bytes_cmp a a ≡ Ordering.eq
unfolding bytes_cmp
bytes_cmp_refl [] = refl
bytes_cmp_refl (x ∷ a) = ground (arith, bytes_cmp_refl a)

pub bytes_cmp-eq : (a b : Bytes) → bytes_cmp a b ≡ Ordering.eq → a ≡ b
unfolding bytes_cmp
bytes_cmp-eq [] [] h = refl
bytes_cmp-eq [] (y ∷ b) h = cc
bytes_cmp-eq (x ∷ a) [] h = cc
bytes_cmp-eq (x ∷ a) (y ∷ b) h = ground (arith, bytes_cmp-eq a b)

pub bytes_cmp-gt : (a b : Bytes) → bytes_cmp a b ≡ Ordering.gt → BytesLt b a
unfolding bytes_cmp
bytes_cmp-gt [] [] h = cc
bytes_cmp-gt [] (y ∷ b) h = cc
bytes_cmp-gt (x ∷ a) [] h = refl
bytes_cmp-gt (x ∷ a) (y ∷ b) h = ground (arith, bytes_cmp-gt a b)

pub BytesLt-trans : (a b c : Bytes) → BytesLt a b → BytesLt b c → BytesLt a c
unfolding bytes_cmp
BytesLt-trans [] [] c h k = cc
BytesLt-trans [] (y ∷ b) [] h k = cc
BytesLt-trans [] (y ∷ b) (z ∷ c) h k = refl
BytesLt-trans (x ∷ a) [] c h k = cc
BytesLt-trans (x ∷ a) (y ∷ b) [] h k = cc
BytesLt-trans (x ∷ a) (y ∷ b) (z ∷ c) h k = ground (arith, BytesLt-trans a b c)
