-- ===== src/Lightning/Lnurl/Metadata.antt =====
-- src/lightning/lnurl.rs: the metadata of LNURL-pay, and the guard of a payment.
use lipa_lightning_lib.Prelude.{
  ap, byte_len, ◌≤◌, ℕ, String, true, false, not, ◌≡◌, refl, sym, Option, none, some, List, [], ◌∷◌,
  err, ok, arith, eq_iff, str_eq, if◌then◌else◌, or_else, filter_map, Bool-cases, inl, inr, ◌∙◌,
  invalid_input,
}
use lipa_lightning_lib.Db.{last}
use lipa_lightning_lib.Amount.{as_sats}
use lipa_lightning_lib.SdkPayment.{
  LnUrlPayRequestData, LnUrlPayResult, endpoint_success, endpoint_error, pay_error,
}
use lipa_lightning_lib.Sdk.{Call, World}
use lipa_lightning_lib.Sdk.Broadcasts.{
  Quiet, quiet_rules, Quiet-on_store, Sends, Sends-ensure, Sends-then, Outcome,
}
use lipa_lightning_lib.Support.{Support, report_send_payment_issue, store_payment_info_of}
use lipa_lightning_lib.Lightning.Lnurl.{
  MetadataItem, missing_short_description, scan_metadata, ensure_described, parse_metadata,
  is_too_long, payment_hash_of, pay,
}

abbrev pub values : String → List MetadataItem → List String
values key items =
    filter_map (λ (i : MetadataItem). if str_eq i.key key then some i.value else none) items

-- the value of the last item with a key
abbrev pub last_value : String → List MetadataItem → Option String
last_value key items = last (values key items)

abbrev pub text_or_empty : Option String → String
text_or_empty none = ""
text_or_empty (some t) = t

or_else-none : {A : Type 0} (o : Option A) → o ≡ or_else o none
or_else-none none = refl
or_else-none (some x) = refl

last-cons : {A : Type 0} (x : A) (xs : List A) → last (x ∷ xs) ≡ or_else (last xs) (some x)
last-cons x [] = refl
last-cons x (y ∷ []) = refl
last-cons x (y ∷ z ∷ xs) = ground (arith, last-cons z xs)

last_value-cons :
    (key : String) (item : MetadataItem) (items : List MetadataItem)
    → last_value key (item ∷ items)
      ≡ or_else (last_value key items) (if str_eq item.key key then some item.value else none)
last_value-cons key item items = elim (Bool-cases (str_eq item.key key)) [
  | inl same ↦ rw same (last-cons item.value (values key items))
  | inr other ↦ rw other (or_else-none (last_value key items))
]

-- The two keys differ.
one_key : (key : String) → str_eq key "text/plain" ≡ true → str_eq key "text/long-desc" ≡ false
one_key key h = let e : key ≡ "text/plain" = (eq_iff key "text/plain").0 h in rw e refl

scan-last :
    (items : List MetadataItem) (s : String) (l : Option String)
    → scan_metadata items s l ≡ (
      text_or_empty (or_else (last_value "text/plain" items) (some s)),
      or_else (last_value "text/long-desc" items) l,
    )
unfolding scan_metadata
scan-last [] s l = refl
scan-last (item ∷ items) s l =
    let plain = last_value-cons "text/plain" item items in
    let long = last_value-cons "text/long-desc" item items in
    let first : text_or_empty (
          or_else (last_value "text/plain" items)
            (some (if str_eq item.key "text/plain" then item.value else s)))
        ≡ text_or_empty (or_else (last_value "text/plain" (item ∷ items)) (some s)) =
      ground (arith, plain) in
    let second : or_else (last_value "text/long-desc" items) (
          if str_eq item.key "text/plain"
          then l
          else if str_eq item.key "text/long-desc"
          then some item.value
          else l)
        ≡ or_else (last_value "text/long-desc" (item ∷ items)) l =
      ground (arith, long, one_key item.key) in
    scan-last items _ _ ∙ λ i. (first i, second i)

text_of_default : (o : Option String) → text_or_empty (or_else o (some "")) ≡ text_or_empty o
text_of_default none = refl
text_of_default (some t) = refl

scan_start :
    (items : List MetadataItem)
    → scan_metadata items "" none
      ≡ (text_or_empty (last_value "text/plain" items), last_value "text/long-desc" items)
scan_start items = scan-last items "" none ∙ λ i. (
  text_of_default (last_value "text/plain" items) i,
  sym (or_else-none (last_value "text/long-desc" items)) i,
)

-- The descriptions are the values of the last items with their keys, and metadata without a short
-- description, or with an empty one, is refused.
pub parse_metadata-last_value :
    (items : List MetadataItem)
    → parse_metadata (some items) ≡ (
        if str_eq (text_or_empty (last_value "text/plain" items)) ""
        then err missing_short_description
        else ok (text_or_empty (last_value "text/plain" items), last_value "text/long-desc" items))
unfolding parse_metadata ensure_described
parse_metadata-last_value items = rw (scan_start items) refl

payment_hash_of-Quiet : (result : LnUrlPayResult) → Quiet (payment_hash_of result)
unfolding payment_hash_of report_send_payment_issue
payment_hash_of-Quiet (endpoint_success id) = search (quiet_rules) depth 24
payment_hash_of-Quiet endpoint_error = search (quiet_rules) depth 24
payment_hash_of-Quiet (pay_error hash) = search (quiet_rules) depth 24

-- A comment, if there is one, has at most as many bytes as the payee allows.
abbrev pub IsAllowed : Option String → ℕ → Type 0
IsAllowed comment allowed = (c : String) → comment ≡ some c → byte_len c ≤ allowed

fits :
    (comment : Option String) (allowed : ℕ)
    → not (is_too_long comment allowed) ≡ true
    → IsAllowed comment allowed
unfolding is_too_long
fits none allowed h c e = cc
fits (some t) allowed h c e =
    let same : t ≡ c = cc in
    let short : byte_len t ≤ allowed = ground arith in rw (ap byte_len (sym same)) short

-- Paying with LNURL-pay either fails and moves no funds, or makes one payment: of the amount and
-- with the comment that were given, where the comment has at most as many bytes of UTF-8 as the payee
-- allows.
pub lnurl_pay_is_guarded :
    (sup : Support) (now : ℕ) (d : LnUrlPayRequestData) (amount_sat : ℕ) (comment : Option String)
    (w : World)
    → Outcome
        (λ c.
          (c ≡ Call.lnurl_pay d (as_sats amount_sat).msats comment)
          × IsAllowed comment d.comment_allowed)
        w
        (pay sup now d amount_sat comment w)
unfolding pay store_payment_info_of
lnurl_pay_is_guarded sup now d amount_sat comment w =
    let sends : Sends
        (λ c.
          (c ≡ Call.lnurl_pay d (as_sats amount_sat).msats comment)
          × IsAllowed comment d.comment_allowed)
        (pay sup now d amount_sat comment) =
      Sends-ensure (not (is_too_long comment d.comment_allowed)) invalid_input _ λ short.
        Sends-then _ _ _ refl (refl, fits comment d.comment_allowed short)
          (λ answer. search (quiet_rules, payment_hash_of-Quiet, Quiet-on_store) depth 24) in
    sends.at w
