-- ===== src/Storage/Mp4/Strip/Audit.antt =====
-- server/internal/storage/mp4.go: an audit of a file, which looks for privacy boxes that hold a byte
-- other than zero, at any depth that the walk reaches.
use check_in.Prelude.{
  NoError, ℕ, zero, suc, ◌≤◌, ◌≡◌, refl, ap₂, Bool, true, false, ◌&&◌, List, [], ◌∷◌, if◌then◌else◌,
  length, Result, ok, err, panic, out_of_fuel, arith,
}
use check_in.Slice.{Bytes, zeroed, zeroed_agree}
use check_in.Storage.Mp4.{Box, member, mp4_containers, privacy_boxes, parse_boxes}
use check_in.Storage.Mp4.Boxes.{Inside, parse_boxes-Inside}
use check_in.Storage.Mp4.Layout.{Agree, parse_boxes-Kept}

-- A file whose boxes cannot be read fails.
abbrev pub audit_parsed : (List Box → Bool) → Result NoError (List Box × Bool) → Bool
audit_parsed f (ok (bs, whole)) = f bs
audit_parsed f (err e) = false
audit_parsed f panic = false
audit_parsed f out_of_fuel = false

unfoldable pub audit_box : (Bytes → List Box → Bool) → Bytes → Box → Bool
audit_box audit_kids d b =
    if member privacy_boxes b.typ
    then zeroed d b.start b.stop
    else if member mp4_containers b.typ
    then audit_parsed (audit_kids d) (parse_boxes d b.start b.stop)
    else true

pub audit_privacy :
    (f : Bytes → List Box → Bool) (d : Bytes) (b : Box)
    → member privacy_boxes b.typ ≡ true
    → zeroed d b.start b.stop ≡ true
    → audit_box f d b ≡ true
unfolding audit_box
audit_privacy f d b h k = rw h k

pub audit_other :
    (f : Bytes → List Box → Bool) (d : Bytes) (b : Box)
    → member privacy_boxes b.typ ≡ false
    → member mp4_containers b.typ ≡ false
    → audit_box f d b ≡ true
unfolding audit_box
audit_other f d b h k = rw (h, k) refl

unfoldable pub audit_each : (Bytes → List Box → Bool) → Bytes → List Box → Bool
unfolding audit_box
audit_each audit_kids d [] = true
audit_each audit_kids d (b ∷ bs) = audit_box audit_kids d b && audit_each audit_kids d bs

unfoldable pub audit : ℕ → Bytes → List Box → Bool
unfolding audit_each
audit zero d bs = true
audit (suc levels) d bs = audit_each (audit levels) d bs

-- The outcome hangs on the bytes of the boxes' stretch alone.
abbrev pub Framed : (Bytes → List Box → Bool) → Type 0
Framed f =
    (lo hi : ℕ) (d d' : Bytes) (bs : List Box)
    → length d' ≡ length d
    → hi ≤ length d
    → Agree lo hi d d'
    → Inside lo hi bs
    → f d' bs ≡ f d bs

module _ (f : Bytes → List Box → Bool) (framed : Framed f) where
  pub audit_box-Agree :
      (d d' : Bytes) (b : Box)
      → length d' ≡ length d
      → b.start ≤ b.stop
      → b.stop ≤ length d
      → Agree b.start b.stop d d'
      → audit_box f d' b ≡ audit_box f d b
  unfolding audit_box
  audit_box-Agree d d' b e o i h =
      let zeros = zeroed_agree d d' b.start b.stop e h in
      let r = parse_boxes-Inside d b.start b.stop o i in
      let there =
        parse_boxes-Kept d d' b.start b.stop r.value.0 r.value.1 e o i r.returned
          (λ k p q _. h k p q) in
      let kids = framed b.start b.stop d d' r.value.0 e i h r.holds in
      rw (zeros, there, r.returned, kids) refl

  audit_each-Framed : Framed (audit_each f)
  unfolding audit_each
  audit_each-Framed lo hi d d' [] e i h k = refl
  audit_each-Framed lo hi d d' (b ∷ bs) e i h k =
      ap₂ (λ x y. x && y)
        (audit_box-Agree d d' b e (omega (arith, k.0)) (omega (arith, k.0))
          (λ j p q. h j (omega (arith, k.0)) (omega (arith, k.0))))
        (audit_each-Framed lo hi d d' bs e i h k.1)

pub audit-Framed : (levels : ℕ) → Framed (audit levels)
unfolding audit
audit-Framed zero lo hi d d' bs e i h k = refl
audit-Framed (suc levels) lo hi d d' bs e i h k =
    audit_each-Framed (audit levels) (audit-Framed levels) lo hi d d' bs e i h k
