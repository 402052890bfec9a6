-- ===== src/Recipients/Recent.antt =====
-- Which addresses are listed, and in which order.
use lipa_lightning_lib.Sdk.{World}
use mathlib.Core.List.{Memᴰ}
use mathlib.Core.List.Memᴰ
use mathlib.Core.List.Memᴰ.{head, tail}
use lipa_lightning_lib.Prelude.{
  ◌≤◌, true, false, ◌≡◌, ◌≢◌, refl, sym, ap, ◌∙◌, inl, inr, ◌↔◌, arith, eq_iff, none, some, List,
  [], ◌∷◌, All, ok, str_eq, filter_map, map, leb→le, Bool-cases, Option-cases,
}
use lipa_lightning_lib.Prelude.Sorting.{
  All-at, All-of_at, IsPairwise, IsPairwise-mono, IsSorted, sort_by, Memᴰ-sort_by, sort_by-IsSorted,
  sort_by-IsPairwise,
}
use lipa_lightning_lib.Payment.{Recipient}
use lipa_lightning_lib.Payment.Conversion.{from_lightning_address}
use lipa_lightning_lib.SdkPayment.{SdkPayment, sent}
use lipa_lightning_lib.Sdk.{Call, World, ask}
use lipa_lightning_lib.Support.{Support}
use lipa_lightning_lib.Recipients.Order.{usage_le_total, usage_le_trans, later_before, between}
use lipa_lightning_lib.Recipients.{
  Usage, usage_of, usage_le, dedup_after, dedup_by_address, time_le, recent_usages, list_recipients,
}

-- The last payment to its address.
pub record IsLatest (e : Usage) (us : List Usage) : Type 0 where
  pub used : Memᴰ e us
  pub latest : (f : Usage) → Memᴰ f us → f.address ≡ e.address → f.payment_time ≤ e.payment_time

abbrev pub Different : Usage → Usage → Type 0
Different a b = a.address ≢ b.address

latest-rest : (e y : Usage) (ys : List Usage) → IsLatest e (y ∷ ys) → Memᴰ e ys → IsLatest e ys
latest-rest e y ys h m = record { used = m; latest = λ f n. h.latest f (tail n) }

latest-more :
    (e y : Usage) (ys : List Usage) → IsLatest e ys → y.address ≢ e.address → IsLatest e (y ∷ ys)
latest-more e y ys h ne = record {
  used = tail h.used;
  latest = λ f n q. elim (Memᴰ.cases_cons n) [
    | inl p ↦ absurd (ne (ap (λ u. u.address) (sym p) ∙ q))
    | inr k ↦ h.latest f k q
  ];
}

-- What is kept of a list in order, after its first element and without it.
abbrev KeepsAfter : Usage → List Usage → Type 0
KeepsAfter x xs = (e : Usage) → Memᴰ e (dedup_after x xs) ↔ (IsLatest e xs × Different e x)

kept :
    (x : Usage) (xs : List Usage)
    → IsSorted usage_le (x ∷ xs)
    → KeepsAfter x xs
    → (e : Usage) → Memᴰ e (x ∷ dedup_after x xs) ↔ IsLatest e (x ∷ xs)
kept x xs (p, h) after e = (
  λ m. elim (Memᴰ.cases_cons m) [
    | inl same ↦ record {
      used = head same;
      latest = λ f n q. elim (Memᴰ.cases_cons n) [
        | inl o ↦ (let k = ap (λ u. u.payment_time) (o ∙ sym same) in omega arith)
        | inr k ↦
            let l = later_before x f (All-at _ xs p k) (q ∙ ap (λ u. u.address) same) in
            let t = ap (λ u. u.payment_time) same in omega arith
      ];
    }
    | inr n ↦ (let (l, ne) = (after e).0 n in latest-more e x xs l (λ q. ne (sym q)))
  ],
  λ l. elim (Memᴰ.cases_cons l.used) [
    | inl same ↦ head same
    | inr n ↦ elim (Bool-cases (str_eq e.address x.address)) [
      | inl q ↦
          let same = (eq_iff e.address x.address).0 q in
          let a = later_before x e (All-at _ xs p n) same in
          let b = l.latest x (head refl) (sym same) in
          let t : e.payment_time ≡ x.payment_time = omega arith in
          head (λ i. record { address = same i; payment_time = t i })
      | inr q ↦ tail (
          (after e).1
            (latest-rest e x xs l n, λ same. (let k = (eq_iff e.address x.address).1 same in cc)))
    ]
  ],
)

not_first :
    (x y e : Usage) (ys : List Usage)
    → usage_le x y ≡ true
    → All (λ z. usage_le y z ≡ true) ys
    → str_eq y.address x.address ≡ false
    → Memᴰ e (y ∷ ys)
    → Different e x
not_first x y e ys o q s m same =
    let other : y.address ≢ x.address = λ r. (let k = (eq_iff y.address x.address).1 r in cc) in
    elim (Memᴰ.cases_cons m) [
      | inl p ↦ other (ap (λ u. u.address) (sym p) ∙ same)
      | inr n ↦ other (between x y e o (All-at _ ys q n) same)
    ]

dedup_after_lem : (x : Usage) (xs : List Usage) → IsSorted usage_le (x ∷ xs) → KeepsAfter x xs
unfolding dedup_after
dedup_after_lem x [] h e = (λ m. absurd (Memᴰ.not-nil m), λ l. absurd (Memᴰ.not-nil l.0.used))
dedup_after_lem x (y ∷ ys) ((o, p), (q, h)) e = elim (Bool-cases (str_eq y.address x.address)) [
  | inl s ↦
      let same = (eq_iff y.address x.address).0 s in
      let after = dedup_after_lem x ys (p, h) e in
      rw s (
        λ m. (let (l, ne) = after.0 m in (latest-more e y ys l (λ r. ne (sym r ∙ same)), ne)),
        λ l. elim (Memᴰ.cases_cons l.0.used) [
          | inl r ↦ absurd (l.1 (ap (λ u. u.address) r ∙ same))
          | inr n ↦ after.1 (latest-rest e y ys l.0 n, l.1)
        ],
      )
  | inr s ↦
      let both = kept y ys (q, h) (dedup_after_lem y ys (q, h)) e in
      rw s (λ m. (both.0 m, not_first x y e ys o q s (both.0 m).used), λ l. both.1 l.0)
]

recent :
    (xs : List Usage)
    → IsSorted usage_le xs
    → (e : Usage) → Memᴰ e (dedup_by_address xs) ↔ IsLatest e xs
unfolding dedup_by_address
recent [] h e = (λ m. absurd (Memᴰ.not-nil m), λ l. absurd (Memᴰ.not-nil l.used))
recent (x ∷ xs) h e = kept x xs h (dedup_after_lem x xs h) e

dedup_after-Different :
    (x : Usage) (xs : List Usage)
    → IsSorted usage_le (x ∷ xs)
    → IsPairwise Different (dedup_after x xs)
unfolding dedup_after
dedup_after-Different x [] h = tt
dedup_after-Different x (y ∷ ys) ((o, p), (q, h)) = elim (Bool-cases (str_eq y.address x.address)) [
  | inl s ↦ rw s (dedup_after-Different x ys (p, h))
  | inr s ↦ rw s (
    All-of_at (dedup_after y ys) (λ e m r. ((dedup_after_lem y ys (q, h) e).0 m).1 (sym r)),
    dedup_after-Different y ys (q, h),
  )
]

dedup_by_address-Different :
    (xs : List Usage) → IsSorted usage_le xs → IsPairwise Different (dedup_by_address xs)
unfolding dedup_by_address
dedup_by_address-Different [] h = tt
dedup_by_address-Different (x ∷ xs) h = (
  All-of_at (dedup_after x xs) (λ e m r. ((dedup_after_lem x xs h e).0 m).1 (sym r)),
  dedup_after-Different x xs h,
)

-- The last payments to the addresses of a list, each address once, the latest first.
pub record IsRecency (us all : List Usage) : Type 0 where
  pub latest_of_all : (e : Usage) → Memᴰ e us ↔ IsLatest e all
  pub once : IsPairwise Different us
  pub latest_first : IsPairwise (λ a b. b.payment_time ≤ a.payment_time) us

latest_of_same :
    (xs ys : List Usage)
    → ((e : Usage) → Memᴰ e xs ↔ Memᴰ e ys)
    → (e : Usage) → IsLatest e xs
    → IsLatest e ys
latest_of_same xs ys same e h = record {
  used = (same e).0 h.used;
  latest = λ f n q. h.latest f ((same f).1 n) q;
}

time_le_total : (a b : Usage) → time_le a b ≡ false → time_le b a ≡ true
unfolding time_le
time_le_total a b h = ground arith

time_le_trans : (a b c : Usage) → time_le a b ≡ true → time_le b c ≡ true → time_le a c ≡ true
unfolding time_le
time_le_trans a b c h k = ground arith

time_le-le : (a b : Usage) → time_le a b ≡ true → b.payment_time ≤ a.payment_time
unfolding time_le
time_le-le a b h = leb→le _ _ h

recent_usages-IsRecency :
    (payments : List SdkPayment) → IsRecency (recent_usages payments) (filter_map usage_of payments)
unfolding recent_usages
recent_usages-IsRecency payments =
    let used = filter_map usage_of payments in
    let by_address = sort_by usage_le used in
    let members : (e : Usage) → Memᴰ e by_address ↔ Memᴰ e used =
      λ e. Memᴰ-sort_by usage_le e used in
    let sorted = sort_by-IsSorted usage_le usage_le_total usage_le_trans used in
    record {
      latest_of_all = λ e.
          let sorted_twice = Memᴰ-sort_by time_le e (dedup_by_address by_address) in
          let kept_ones = recent by_address sorted e in
          (
            λ m. latest_of_same by_address used members e (kept_ones.0 (sorted_twice.0 m)),
            λ l. sorted_twice.1 (
                kept_ones.1
                  (latest_of_same used by_address (λ f. ((members f).1, (members f).0)) e l)),
          );
      once =
          sort_by-IsPairwise time_le Different (λ a b ne q. ne (sym q)) _
            (dedup_by_address-Different _ sorted);
      latest_first =
          IsPairwise-mono _ time_le-le
            (sort_by-IsSorted time_le time_le_total time_le_trans (dedup_by_address by_address));
    }

-- The recipients that are listed are those of a list that has, for each address that the sent payments
-- name, its last payment, and no other, each address once, from the latest to the oldest.
pub recipients_are_recent :
    (sup : Support) (w : World) {recipients : List Recipient}
    → (list_recipients sup w).0 ≡ ok recipients
    → (payments : List SdkPayment) × (us : List Usage) × (sup.sdk.answer_list_payments
          (Call.list_payments (sent ∷ []) true none ∷ w.calls)
        ≡ some payments)
      × (recipients
          ≡ map (λ (u : Usage). from_lightning_address u.address sup.lipa_lightning_domain) us)
      × IsRecency us (filter_map usage_of payments)
unfolding list_recipients ask
recipients_are_recent sup w h =
    let asked = sup.sdk.answer_list_payments (Call.list_payments (sent ∷ []) true none ∷ w.calls) in
    elim (Option-cases asked) [
      | inl e ↦ (let k = rw e at h in cc)
      | inr (payments, e) ↦
          let k = rw e at h in
          (payments, recent_usages payments, e, cc, recent_usages-IsRecency payments)
    ]
