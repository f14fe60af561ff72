-- ===== src/Policy/Reasons.antt =====
-- Additions to the ordered set of reasons.
use homemagic.Prelude.{is_empty, ◌≡◌, refl, Bool, true, false, ◌&&◌, not, List, [], ◌∷◌, arith}
use homemagic.Policy.{PolicyReason, insert, insert_if}

pub is_empty-insert : (r : PolicyReason) (rs : List PolicyReason) → is_empty (insert r rs) ≡ false
unfolding insert
is_empty-insert r [] = refl
is_empty-insert r (q ∷ qs) = ground arith

pub is_empty-insert_if :
    (b : Bool) (r : PolicyReason) (rs : List PolicyReason)
    → is_empty (insert_if b r rs) ≡ (not b && is_empty rs)
unfolding insert_if
is_empty-insert_if true r rs = is_empty-insert r rs
is_empty-insert_if false r rs = refl
