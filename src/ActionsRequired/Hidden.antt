-- ===== src/ActionsRequired/Hidden.antt =====
-- src/actions_required.rs: which failed swaps are listed.
use lipa_lightning_lib.Prelude.{
  String, Bool, true, false, not, ◌≡◌, refl, List, [], ◌∷◌, ok, arith, filter, if◌then◌else◌,
}
use lipa_lightning_lib.Prelude.Exec.{pure, >>=-ok, ◌>>=◌}
use lipa_lightning_lib.Sdk.{World}
use lipa_lightning_lib.Support.{Support}
use lipa_lightning_lib.Onchain.Swap.{FailedSwapInfo}
use lipa_lightning_lib.ActionsRequired.{is_hidden, is_shown, shown_swaps}

shown-of_not_hidden :
    (sup : Support) (hidden : List String) (s : FailedSwapInfo) (w : World) {b : Bool}
    → (is_shown sup hidden s w).0 ≡ ok b
    → is_hidden hidden s ≡ false
    → b ≡ true
unfolding is_shown
shown-of_not_hidden sup hidden s w h seen = (let k = rw seen at h in cc)

-- The failed swaps that the user did not hide are all listed, once each and in their order, beside
-- hidden ones.
pub unhidden-shown_swaps :
    (sup : Support) (hidden : List String) (swaps : List FailedSwapInfo) (w : World)
    {shown : List FailedSwapInfo}
    → (shown_swaps sup hidden swaps w).0 ≡ ok shown
    → filter (λ s. not (is_hidden hidden s)) shown ≡ filter (λ s. not (is_hidden hidden s)) swaps
unfolding shown_swaps
unhidden-shown_swaps sup hidden [] w {shown} h = let e : shown ≡ [] = cc in rw e refl
unhidden-shown_swaps sup hidden (s ∷ swaps) w {shown} h =
    let (b, first, rest, _) =
      >>=-ok (is_shown sup hidden s)
        (λ (b : Bool). shown_swaps sup hidden swaps >>= λ (l : List FailedSwapInfo).
          pure (if b then s ∷ l else l))
        w h in
    let (l, others, last_, _) =
      >>=-ok (shown_swaps sup hidden swaps)
        (λ (l : List FailedSwapInfo). pure (if b then s ∷ l else l)) _ rest in
    let e : shown ≡ (if b then s ∷ l else l) = cc in
    ground (
      arith,
      e,
      shown-of_not_hidden sup hidden s w first,
      unhidden-shown_swaps sup hidden swaps _ others,
    )
