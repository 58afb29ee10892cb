-- ===== src/Network/Membership/Edits.antt =====
-- How the zones and the noted zones may change together.
use tower_main.Common.{
  ℕ, ◌≡◌, refl, sym, ap, ◌∙◌, inl, inr, ◌≢◌, none, some, nat_eq, ==-cases, beq_refl, ≢→==,
}
use tower_main.Common.Map.{
  Map, lookup, insert, erase, has_key-lookup, lookup-insert_self, lookup-insert_ne,
  lookup-erase_self, lookup-erase_ne,
}
use tower_main.Network.Zone
use tower_main.Network.Zone.{ZoneTask, adds, removes, handles, ticks, post}
use tower_main.Network.Server.{emplace}
use tower_main.Network.Membership.{
  holds, applied, will_hold, is_zone, is_noted, Agrees, settled-append,
}

erased : (id j : ℕ) (current : Map ℕ ℕ) → j ≡ id → lookup id (erase j current) ≡ none
erased id j current same =
    ap (λ k. lookup k (erase j current)) (sym same) ∙ lookup-erase_self j current

inserted : (id j n : ℕ) (current : Map ℕ ℕ) → j ≡ id → lookup id (insert j n current) ≡ some n
inserted id j n current same =
    ap (λ k. lookup k (insert j n current)) (sym same) ∙ lookup-insert_self j n current

noted-erase :
    (id j y c : ℕ) (current : Map ℕ ℕ)
    → lookup j current ≡ some c
    → c ≢ y
    → is_noted id y current ≡ is_noted id y (erase j current)
noted-erase id j y c current e apart = elim (==-cases j id) [
  | inl (same, _) ↦
      ap (is_zone y) (ap (λ k. lookup k current) (sym same) ∙ e)
      ∙ ≢→== c y apart
      ∙ sym (ap (is_zone y) (erased id j current same))
  | inr (other, _) ↦ sym (ap (is_zone y) (lookup-erase_ne j id current other))
]

noted-removes :
    (id j c : ℕ) (current : Map ℕ ℕ)
    → applied id (removes j) (is_noted id c current) ≡ is_noted id c (erase j current)
noted-removes id j c current = elim (==-cases j id) [
  | inl (same, t) ↦ rw t (sym (ap (is_zone c) (erased id j current same)))
  | inr (other, t) ↦ rw t (sym (ap (is_zone c) (lookup-erase_ne j id current other)))
]

noted-adds :
    (id j n : ℕ) (current : Map ℕ ℕ)
    → applied id (adds j) (is_noted id n (erase j current)) ≡ is_noted id n (insert j n current)
noted-adds id j n current = elim (==-cases j id) [
  | inl (same, t) ↦ rw t (sym (ap (is_zone n) (inserted id j n current same) ∙ beq_refl n))
  | inr (other, t) ↦ rw t (
      ap (is_zone n)
        (lookup-erase_ne j id current other ∙ sym (lookup-insert_ne j id n current other)))
]

noted-elsewhere :
    (id j n y : ℕ) (current : Map ℕ ℕ)
    → n ≢ y
    → is_noted id y (erase j current) ≡ is_noted id y (insert j n current)
noted-elsewhere id j n y current apart = elim (==-cases j id) [
  | inl (same, _) ↦
      ap (is_zone y) (erased id j current same)
      ∙ sym (ap (is_zone y) (inserted id j n current same) ∙ ≢→== n y apart)
  | inr (other, _) ↦
      ap (is_zone y)
        (lookup-erase_ne j id current other ∙ sym (lookup-insert_ne j id n current other))
]

noted-new :
    (id j y : ℕ) (current : Map ℕ ℕ)
    → lookup j current ≡ none
    → 0 ≢ y
    → is_noted id y current ≡ is_noted id y (insert j 0 current)
noted-new id j y current gone apart = elim (==-cases j id) [
  | inl (same, _) ↦
      ap (is_zone y) (ap (λ k. lookup k current) (sym same) ∙ gone)
      ∙ sym (ap (is_zone y) (inserted id j 0 current same) ∙ ≢→== 0 y apart)
  | inr (other, _) ↦ sym (ap (is_zone y) (lookup-insert_ne j id 0 current other))
]

module _ {S : Type 0} where
  will_hold-post :
      (id : ℕ) (t : ZoneTask) (zone : Zone.Zone S)
      → will_hold id (post t zone) ≡ applied id t (will_hold id zone)
  unfolding post
  will_hold-post id t zone = settled-append id zone.tasks t (holds id zone.clients)

  -- One zone is replaced, and what is noted changes for that zone only.
  pub edit :
      (zones : Map ℕ (Zone.Zone S)) (current current' : Map ℕ ℕ) (z : ℕ) (zone zone' : Zone.Zone S)
      → Agrees zones current
      → lookup z zones ≡ some zone
      → ((id : ℕ) → will_hold id zone' ≡ is_noted id z current')
      → ((id y : ℕ) (other : Zone.Zone S)
          → z ≢ y
          → lookup y zones ≡ some other
          → is_noted id y current ≡ is_noted id y current')
      → Agrees (insert z zone' zones) current'
  edit zones current current' z zone zone' a there new rest = record {
    no_zone_zero = elim (==-cases z 0) [
      | inl (same, _) ↦
          (let e = sym a.no_zone_zero ∙ ap (λ k. lookup k zones) (sym same) ∙ there in absurd (cc))
      | inr (apart, _) ↦ lookup-insert_ne z 0 zone' zones apart ∙ a.no_zone_zero
    ];
    agree = λ id y found e. elim (==-cases z y) [
      | inl (same, _) ↦
          let f =
            sym (lookup-insert_self z zone' zones)
            ∙ ap (λ k. lookup k (insert z zone' zones)) same
            ∙ e in
          (let g : found ≡ zone' = cc in
            ap (will_hold id) g ∙ new id ∙ ap (λ k. is_noted id k current') same)
      | inr (apart, _) ↦
          let f = sym (lookup-insert_ne z y zone' zones apart) ∙ e in
          a.agree id y found f ∙ rest id y found apart f
    ];
  }

  -- A zone whose clients will be the same.
  pub edit-zone :
      (zones : Map ℕ (Zone.Zone S)) (current : Map ℕ ℕ) (z : ℕ) (zone zone' : Zone.Zone S)
      → Agrees zones current
      → lookup z zones ≡ some zone
      → ((id : ℕ) → will_hold id zone' ≡ will_hold id zone)
      → Agrees (insert z zone' zones) current
  edit-zone zones current z zone zone' a there same =
      edit zones current current z zone zone' a there (λ id. same id ∙ a.agree id z zone there)
        (λ id y other apart e. refl)

  -- The client is removed from its zone, and forgotten.
  pub post-removes :
      (zones : Map ℕ (Zone.Zone S)) (current : Map ℕ ℕ) (j c : ℕ) (zone : Zone.Zone S)
      → Agrees zones current
      → lookup j current ≡ some c
      → lookup c zones ≡ some zone
      → Agrees (insert c (post (removes j) zone) zones) (erase j current)
  post-removes zones current j c zone a e there =
      edit zones current (erase j current) c zone (post (removes j) zone) a there
        (λ id.
          will_hold-post id (removes j) zone
          ∙ ap (applied id (removes j)) (a.agree id c zone there)
          ∙ noted-removes id j c current)
        (λ id y other apart found. noted-erase id j y c current e apart)

  -- A client without a zone is forgotten.
  pub forget :
      (zones : Map ℕ (Zone.Zone S)) (current : Map ℕ ℕ) (j c : ℕ)
      → Agrees zones current
      → lookup j current ≡ some c
      → lookup c zones ≡ none
      → Agrees zones (erase j current)
  forget zones current j c a e missing = record {
    no_zone_zero = a.no_zone_zero;
    agree = λ id y found there.
        a.agree id y found there
        ∙ noted-erase id j y c current e
            (λ same. (let f = sym missing ∙ ap (λ k. lookup k zones) same ∙ there in cc));
  }

  -- A client that is forgotten is added to a zone, which is noted.
  pub post-adds :
      (zones : Map ℕ (Zone.Zone S)) (current : Map ℕ ℕ) (j n : ℕ) (zone : Zone.Zone S)
      → Agrees zones (erase j current)
      → lookup n zones ≡ some zone
      → Agrees (insert n (post (adds j) zone) zones) (insert j n current)
  post-adds zones current j n zone a there =
      edit zones (erase j current) (insert j n current) n zone (post (adds j) zone) a there
        (λ id.
          will_hold-post id (adds j) zone
          ∙ ap (applied id (adds j)) (a.agree id n zone there)
          ∙ noted-adds id j n current)
        (λ id y other apart found. noted-elsewhere id j n y current apart)

  -- A new client has no zone.
  pub emplace-zero :
      (zones : Map ℕ (Zone.Zone S)) (current : Map ℕ ℕ) (j : ℕ)
      → Agrees zones current
      → Agrees zones (emplace j 0 current)
  unfolding emplace
  emplace-zero zones current j a = elim (has_key-lookup j current) [
    | inl (there, _) ↦ rw there a
    | inr (missing, gone) ↦ rw missing (record {
      no_zone_zero = a.no_zone_zero;
      agree = λ id y found there.
          a.agree id y found there
          ∙ noted-new id j y current gone
              (λ same. (let f = sym a.no_zone_zero ∙ ap (λ k. lookup k zones) same ∙ there in cc));
    })
  ]
