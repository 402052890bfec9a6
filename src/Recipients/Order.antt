-- ===== src/Recipients/Order.antt =====
-- The order of usages by which they are sorted.
use lipa_lightning_lib.Prelude.{
  ◌≤◌, true, false, ◌≡◌, sym, ap, ◌∙◌, ◌⊎◌, inl, inr, arith, eq_iff, str_eq, leb, leb→le,
  Bool-cases,
}
use lipa_lightning_lib.Prelude.Sorting.{text_ltb, text_ltb_irrefl, text_ltb_trans, text_ltb_total}
use lipa_lightning_lib.Recipients.{Usage, usage_le}

usage_le-cases :
    (a b : Usage)
    → usage_le a b ≡ true
    → (a.address ≡ b.address) × (b.payment_time ≤ a.payment_time)
      ⊎ (text_ltb a.address b.address ≡ true)
unfolding usage_le
usage_le-cases a b h = elim (Bool-cases (str_eq a.address b.address)) [
  | inl e ↦ inl ((eq_iff a.address b.address).0 e, leb→le _ _ (rw e at h))
  | inr e ↦ inr (rw e at h)
]

usage_le-same :
    (a b : Usage) → a.address ≡ b.address → b.payment_time ≤ a.payment_time → usage_le a b ≡ true
unfolding usage_le
usage_le-same a b e h = rw ((eq_iff a.address b.address).1 e) (ground arith)

usage_le-less : (a b : Usage) → text_ltb a.address b.address ≡ true → usage_le a b ≡ true
unfolding usage_le
usage_le-less a b h = elim (Bool-cases (str_eq a.address b.address)) [
  | inl e ↦
      let same = (eq_iff a.address b.address).0 e in
      let k = text_ltb_irrefl a.address in let l = ap (text_ltb a.address) same in cc
  | inr e ↦ rw e h
]

pub usage_le_total : (a b : Usage) → usage_le a b ≡ false → usage_le b a ≡ true
usage_le_total a b h = elim (text_ltb_total a.address b.address) [
  | inl lt ↦ (let k = usage_le-less a b lt in cc)
  | inr (inl gt) ↦ usage_le-less b a gt
  | inr (inr same) ↦ elim (Bool-cases (leb b.payment_time a.payment_time)) [
    | inl e ↦ (let k = usage_le-same a b same (leb→le _ _ e) in cc)
    | inr e ↦ usage_le-same b a (sym same) (ground arith)
  ]
]

pub usage_le_trans :
    (a b c : Usage) → usage_le a b ≡ true → usage_le b c ≡ true → usage_le a c ≡ true
usage_le_trans a b c h k = elim (usage_le-cases a b h) [
  | inl (e, p) ↦ elim (usage_le-cases b c k) [
    | inl (f, q) ↦ usage_le-same a c (e ∙ f) (omega arith)
    | inr g ↦ usage_le-less a c (ap (λ t. text_ltb t c.address) e ∙ g)
  ]
  | inr g ↦ elim (usage_le-cases b c k) [
    | inl (f, q) ↦ usage_le-less a c (ap (text_ltb a.address) (sym f) ∙ g)
    | inr l ↦ usage_le-less a c (text_ltb_trans _ _ _ g l)
  ]
]

-- Of two usages in order whose addresses are equal, the first is the later.
pub later_before :
    (a b : Usage) → usage_le a b ≡ true → b.address ≡ a.address → b.payment_time ≤ a.payment_time
later_before a b h e = elim (usage_le-cases a b h) [
  | inl (f, q) ↦ q
  | inr g ↦ (let k = ap (text_ltb a.address) (sym e) ∙ g in let l = text_ltb_irrefl a.address in cc)
]

-- Three usages in order: if the outer addresses are equal, so are the first two.
pub between :
    (a b c : Usage)
    → usage_le a b ≡ true
    → usage_le b c ≡ true
    → c.address ≡ a.address
    → b.address ≡ a.address
between a b c h k e = elim (usage_le-cases a b h) [
  | inl (f, q) ↦ sym f
  | inr g ↦ elim (usage_le-cases b c k) [
    | inl (f, q) ↦ f ∙ e
    | inr l ↦
        let m = text_ltb_trans _ _ _ g l in
        let n = ap (text_ltb a.address) (sym e) ∙ m in let o = text_ltb_irrefl a.address in cc
  ]
]
