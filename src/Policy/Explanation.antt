-- ===== src/Policy/Explanation.antt =====
-- What a decision says of itself.
use homemagic.Prelude.{
  ltb, nat_beq, all, is_empty, Any, ◌≡◌, refl, inl, inr, Bool, true, false, not, List, [], ◌∷◌,
  ◌++◌, arith, ◌&&◌,
}
use homemagic.Capability.{RiskClass, observe, comfort, mechanical, security}
use homemagic.Actor.{ActorGrant}
use homemagic.Policy.{
  PolicyInput, PolicyReason, allowed_by_grant, reason_code, insert_if, risk_reasons, grant_reasons,
  risk_matched_grants, denials, evaluate, no_matching_grant, risk_exceeds_grant, insert,
}
use homemagic.Policy.Covers.{Covers}
use homemagic.Policy.Reasons.{is_empty-insert_if}
use homemagic.Policy.Collected.{is_empty-grant_reasons}
use homemagic.Policy.Permission.{evaluate-Permitted}

-- No member is the reason for a permission.
abbrev pub only_denials : List PolicyReason → Bool
only_denials = all (λ r. not (nat_beq (reason_code r) 10))

only_denials-insert :
    (r : PolicyReason) (rs : List PolicyReason)
    → ltb (reason_code r) 10 ≡ true
    → only_denials rs ≡ true
    → only_denials (insert r rs) ≡ true
unfolding insert
only_denials-insert r [] h k = ground arith
only_denials-insert r (q ∷ qs) h k = ground (arith, only_denials-insert r qs h)

only_denials-insert_if :
    (b : Bool) (r : PolicyReason) (rs : List PolicyReason)
    → ltb (reason_code r) 10 ≡ true
    → only_denials rs ≡ true
    → only_denials (insert_if b r rs) ≡ true
unfolding insert_if
only_denials-insert_if true r rs h k = only_denials-insert r rs h k
only_denials-insert_if false r rs h k = k

only_denials-grant_reasons :
    (sc rm : List ActorGrant) (rs : List PolicyReason)
    → only_denials rs ≡ true
    → only_denials (grant_reasons sc rm rs) ≡ true
unfolding grant_reasons
only_denials-grant_reasons sc rm rs k = ground (
  arith,
  only_denials-insert no_matching_grant rs refl k,
  only_denials-insert risk_exceeds_grant rs refl k,
)

only_denials-risk_reasons :
    (i : PolicyInput) (rm : List ActorGrant) (r : RiskClass) (rs : List PolicyReason)
    → only_denials rs ≡ true
    → only_denials (risk_reasons i rm r rs) ≡ true
unfolding risk_reasons
only_denials-risk_reasons i rm observe rs k = k
only_denials-risk_reasons i rm comfort rs k = k
only_denials-risk_reasons i rm mechanical rs k =
    only_denials-insert_if _ _ _ refl
      (only_denials-insert_if _ _ _ refl (only_denials-insert_if _ _ _ refl k))
only_denials-risk_reasons i rm security rs k = only_denials-insert_if _ _ _ refl k

only_denials-denials :
    (i : PolicyInput) (grants : List ActorGrant) → only_denials (denials i grants) ≡ true
unfolding denials
only_denials-denials i grants = only_denials-insert_if _ _ _ refl (
    only_denials-insert_if _ _ _ refl (
      only_denials-risk_reasons i _ i.risk _ (
        only_denials-grant_reasons _ _ _
          (only_denials-insert_if _ _ _ refl (only_denials-insert_if _ _ _ refl refl)))))

is_empty-drop :
    (b : Bool) (r : PolicyReason) (rs : List PolicyReason)
    → is_empty (insert_if b r rs) ≡ true
    → is_empty rs ≡ true
is_empty-drop b r rs h = ground (arith, is_empty-insert_if b r rs)

is_empty-risk_reasons :
    (i : PolicyInput) (rm : List ActorGrant) (r : RiskClass) (rs : List PolicyReason)
    → is_empty (risk_reasons i rm r rs) ≡ true
    → is_empty rs ≡ true
unfolding risk_reasons
is_empty-risk_reasons i rm observe rs h = h
is_empty-risk_reasons i rm comfort rs h = h
is_empty-risk_reasons i rm mechanical rs h =
    is_empty-drop _ _ _ (is_empty-drop _ _ _ (is_empty-drop _ _ _ h))
is_empty-risk_reasons i rm security rs h = is_empty-drop _ _ _ h

nonempty_of :
    (sc rm : List ActorGrant) (rs : List PolicyReason)
    → is_empty (grant_reasons sc rm rs) ≡ true
    → is_empty rm ≡ false
nonempty_of sc rm rs h = ground (arith, is_empty-grant_reasons sc rm rs)

-- Without a reason against the request some grant is left.
is_empty-denials :
    (i : PolicyInput) (grants : List ActorGrant)
    → is_empty (denials i grants) ≡ true
    → is_empty (risk_matched_grants i grants) ≡ false
unfolding denials
is_empty-denials i grants h =
    nonempty_of _ _ _
      (is_empty-risk_reasons i _ i.risk _ (is_empty-drop _ _ _ (is_empty-drop _ _ _ h)))

explained :
    (rs : List PolicyReason) (e : Bool)
    → only_denials rs ≡ true
    → (is_empty rs ≡ true → e ≡ false)
    → ((is_empty rs && not e) ≡ true
        → insert_if (is_empty rs && not e) allowed_by_grant rs ≡ allowed_by_grant ∷ [])
      × ((is_empty rs && not e) ≡ false
          → (is_empty (insert_if (is_empty rs && not e) allowed_by_grant rs) ≡ false)
            × (only_denials (insert_if (is_empty rs && not e) allowed_by_grant rs) ≡ true))
unfolding insert_if
explained [] e d k = rw (k refl) ((λ h. refl), (λ h. absurd (cc)))
explained (r ∷ rs) e d k = ((λ h. absurd (cc)), (λ h. (refl, d)))

-- A decision explains itself: if it allows the request its only reason is the grant, and if it
-- denies the request it lists at least one reason, and the grant is not among them.
pub evaluate_explains :
    (i : PolicyInput) (grants : List ActorGrant)
    → ((evaluate i grants).allowed ≡ true → (evaluate i grants).reasons ≡ allowed_by_grant ∷ [])
      × ((evaluate i grants).allowed ≡ false
          → (is_empty (evaluate i grants).reasons ≡ false)
            × (only_denials (evaluate i grants).reasons ≡ true))
unfolding evaluate
evaluate_explains i grants =
    explained (denials i grants) (is_empty (risk_matched_grants i grants))
      (only_denials-denials i grants) (is_empty-denials i grants)

Any-append {ℓ} : {A : Type ℓ} (P : A → Type 0) (xs ys : List A) → Any P xs → Any P (xs ++ ys)
Any-append P [] ys a = absurd a
Any-append P (x ∷ xs) ys (inl h) = inl h
Any-append P (x ∷ xs) ys (inr a) = inr (Any-append P xs ys a)

-- Granting more never takes a permission away.
pub evaluate_more_grants :
    (i : PolicyInput) (grants more : List ActorGrant)
    → (evaluate i grants).allowed ≡ true
    → (evaluate i (grants ++ more)).allowed ≡ true
evaluate_more_grants i grants more h =
    let p = (evaluate-Permitted i grants).0 h in
    (evaluate-Permitted i (grants ++ more)).1 (record {
      actor_enabled = p.actor_enabled;
      interactive = p.interactive;
      granted = Any-append (Covers i) grants more p.granted;
      observed = p.observed;
      constrained = p.constrained;
      rate = p.rate;
      slot = p.slot;
    })
