-- ===== src/Gates/Signal/Mask.antt =====
-- agent/src/regime/signal.ts: the mask of a list of gates, and back.
use deltadesk.Prelude.{ℕ, ◌≡◌, refl, Bool, false, ◌||◌, List, [], ◌∷◌, filter, any, arith}
use deltadesk.Gates.{GateName, gate_names, same_gate}
use deltadesk.Gates.Signal.{has_bit, set_bit, gates_mask_from, gates_mask_of_names, gates_of_mask}

has_bit-set_bit :
    (mask : ℕ) (g h : GateName) → has_bit (set_bit mask g) h ≡ same_gate h g || has_bit mask h
unfolding has_bit set_bit
has_bit-set_bit mask g h = ground arith

has_bit-gates_mask_from :
    (mask : ℕ) (gates : List GateName) (h : GateName)
    → has_bit (gates_mask_from mask gates) h ≡ any (same_gate h) gates || has_bit mask h
unfolding gates_mask_from
has_bit-gates_mask_from mask [] h = refl
has_bit-gates_mask_from mask (g ∷ rest) h =
    let later = has_bit-gates_mask_from (set_bit mask g) rest h in
    let here = has_bit-set_bit mask g h in ground arith

no_bit : (h : GateName) → has_bit 0 h ≡ false
unfolding has_bit
no_bit h = ground arith

filter_ap :
    (p q : GateName → Bool) (xs : List GateName)
    → ((x : GateName) → p x ≡ q x)
    → filter p xs ≡ filter q xs
filter_ap p q [] e = refl
filter_ap p q (x ∷ xs) e = let here = e x in let later = filter_ap p q xs e in ground arith

-- The gates of the mask of any list are the gates of the list, once each and in the order of the names.
pub gates_of_mask-gates_mask_of_names :
    (gates : List GateName)
    → gates_of_mask (gates_mask_of_names gates) ≡ filter (λ g. any (same_gate g) gates) gate_names
unfolding gates_of_mask gates_mask_of_names
gates_of_mask-gates_mask_of_names gates =
    filter_ap (has_bit (gates_mask_from 0 gates)) (λ g. any (same_gate g) gates) gate_names
      (λ h. let e = has_bit-gates_mask_from 0 gates h in let none_set = no_bit h in ground arith)
