-- ===== src/Network/Lifetime/Edits.antt =====
-- How the queue, the maps and the connections may change together.
use tower_main.Common.{
  ℕ, ◌≡◌, refl, sym, ap, subst, ◌∙◌, inl, inr, Bool, true, false, if◌then◌else◌, List, [], ◌∷◌,
  ◌++◌, some, ◌==◌, nat_eq, ==-cases, Bool-cases,
}
use tower_main.Common.Map.{
  Map, lookup, insert, erase, has_key-lookup, lookup-insert_self, lookup-insert_ne,
  lookup-erase_self, lookup-erase_ne,
}
use tower_main.Network.Client.{Store, accepted}
use tower_main.Network.Server
use tower_main.Network.Server.{ServerTask, emplace}
use tower_main.Network.Membership.{is_some, holds}
use tower_main.Network.Lifetime.{connected, Ready, Lives}
use tower_main.Network.Lifetime.Connected.{SameConnected, Closes, connected-insert}
use tower_main.Network.Lifetime.Ready.{IsNeutral, Ready-neutral, Ready-adds, Ready-removes}

holds-insert :
    (id j v : ℕ) (m : Map ℕ ℕ) → holds id (insert j v m) ≡ (if j == id then true else holds id m)
holds-insert id j v m = elim (==-cases j id) [
  | inl (same, t) ↦
      rw t (ap is_some (ap (λ k. lookup k (insert j v m)) (sym same) ∙ lookup-insert_self j v m))
  | inr (apart, t) ↦ rw t (ap is_some (lookup-insert_ne j id v m apart))
]

holds-erase :
    (id j : ℕ) (m : Map ℕ ℕ) → holds id (erase j m) ≡ (if j == id then false else holds id m)
holds-erase id j m = elim (==-cases j id) [
  | inl (same, t) ↦
      rw t (ap is_some (ap (λ k. lookup k (erase j m)) (sym same) ∙ lookup-erase_self j m))
  | inr (apart, t) ↦ rw t (ap is_some (lookup-erase_ne j id m apart))
]

holds-emplace :
    (id j v : ℕ) (m : Map ℕ ℕ) → holds id (emplace j v m) ≡ (if j == id then true else holds id m)
unfolding emplace
holds-emplace id j v m = elim (has_key-lookup j m) [
  | inr (missing, gone) ↦ rw missing (holds-insert id j v m)
  | inl (there, (value, found)) ↦ rw there (elim (==-cases j id) [
    | inl (same, t) ↦ rw t (ap is_some (ap (λ k. lookup k m) (sym same) ∙ found))
    | inr (_, t) ↦ rw t
  ])
]

-- A value is written under a key that is there.
holds-overwrite :
    (id j v c : ℕ) (m : Map ℕ ℕ) → lookup j m ≡ some c → holds id (insert j v m) ≡ holds id m
holds-overwrite id j v c m e = holds-insert id j v m ∙ elim (==-cases j id) [
  | inl (same, t) ↦ rw t (sym (ap is_some (ap (λ k. lookup k m) (sym same) ∙ e)))
  | inr (_, t) ↦ rw t
]

pub holds-lookup : (j : ℕ) (m : Map ℕ ℕ) → holds j m ≡ true → (c : ℕ) × (lookup j m ≡ some c)
holds-lookup j m h = elim (has_key-lookup j m) [
  | inl (_, found) ↦ found
  | inr (_, gone) ↦ (let f = sym h ∙ ap is_some gone in absurd (cc))
]

pub Lives-store :
    (tasks : List ServerTask) (clients zones : Map ℕ ℕ) (store store' : Store)
    → SameConnected store store'
    → Lives tasks clients zones store
    → Lives tasks clients zones store'
Lives-store tasks clients zones store store' same v = record {
  same_keys = v.same_keys;
  ready = λ id. subst (λ b. Ready id b tasks (holds id zones)) (sym (same id)) (v.ready id);
}

pub Lives-neutral :
    (tasks : List ServerTask) (clients zones : Map ℕ ℕ) (store : Store) (t : ServerTask)
    → IsNeutral t
    → Lives tasks clients zones store
    → Lives (tasks ++ t ∷ []) clients zones store
Lives-neutral tasks clients zones store t n v = record {
  same_keys = v.same_keys;
  ready = λ id. Ready-neutral id (connected id store) tasks t (holds id zones) n (v.ready id);
}

pub Lives-accepted :
    (tasks : List ServerTask) (clients zones : Map ℕ ℕ) (store : Store) (j : ℕ)
    → Lives tasks clients zones store
    → Lives (tasks ++ Server.adds j ∷ []) clients zones (insert j accepted store)
Lives-accepted tasks clients zones store j v = record {
  same_keys = v.same_keys;
  ready = λ id.
      subst (λ b. Ready id b (tasks ++ Server.adds j ∷ []) (holds id zones))
        (sym (connected-insert id j accepted store))
        (Ready-adds id (connected id store) tasks j (holds id zones) (v.ready id));
}

pub Lives-closed :
    (tasks : List ServerTask) (clients zones : Map ℕ ℕ) (store : Store) (j : ℕ) (r : Store × Bool)
    → Closes j store r
    → Lives tasks clients zones store
    → Lives (if r.1 then tasks ++ Server.removes j ∷ [] else tasks) clients zones r.0
Lives-closed tasks clients zones store j r c v = elim (Bool-cases r.1) [
  | inl t ↦ rw t (record {
    same_keys = v.same_keys;
    ready = λ id.
        subst (λ b. Ready id b (tasks ++ Server.removes j ∷ []) (holds id zones))
          (sym (
            c.closed id
            ∙ ap
                (λ b.
                  if b then (if j == id then false else connected id store) else connected id store)
                t))
          (Ready-removes id (connected id store) tasks j (holds id zones)
            (λ same. ap (λ k. connected k store) (sym same) ∙ c.was_open t) (v.ready id));
  })
  | inr t ↦ rw t (record {
    same_keys = v.same_keys;
    ready = λ id.
        subst (λ b. Ready id b tasks (holds id zones))
          (sym (
            c.closed id
            ∙ ap
                (λ b.
                  if b then (if j == id then false else connected id store) else connected id store)
                t))
          (v.ready id);
  })
]

pub Lives-added :
    (rest : List ServerTask) (clients zones : Map ℕ ℕ) (store : Store) (j : ℕ)
    → Lives (Server.adds j ∷ rest) clients zones store
    → Lives rest (emplace j j clients) (emplace j 0 zones) store
Lives-added rest clients zones store j v = record {
  same_keys = λ id.
      holds-emplace id j j clients
      ∙ ap (λ b. if j == id then true else b) (v.same_keys id)
      ∙ sym (holds-emplace id j 0 zones);
  ready = λ id.
      subst (Ready id (connected id store) rest) (sym (holds-emplace id j 0 zones)) (v.ready id);
}

pub Lives-removed :
    (rest : List ServerTask) (clients zones : Map ℕ ℕ) (store : Store) (j : ℕ)
    → Lives (Server.removes j ∷ rest) clients zones store
    → (holds j zones ≡ true) × Lives rest (erase j clients) (erase j zones) store
Lives-removed rest clients zones store j v = (
  (v.ready j).0 refl,
  record {
    same_keys = λ id.
        holds-erase id j clients
        ∙ ap (λ b. if j == id then false else b) (v.same_keys id)
        ∙ sym (holds-erase id j zones);
    ready = λ id.
        subst (Ready id (connected id store) rest) (sym (holds-erase id j zones)) (v.ready id).1;
  },
)

pub Lives-moved :
    (tasks : List ServerTask) (clients zones : Map ℕ ℕ) (store : Store) (j n c : ℕ)
    → lookup j zones ≡ some c
    → Lives tasks clients zones store
    → Lives tasks clients (insert j n zones) store
Lives-moved tasks clients zones store j n c e v = record {
  same_keys = λ id. v.same_keys id ∙ sym (holds-overwrite id j n c zones e);
  ready = λ id.
      subst (Ready id (connected id store) tasks) (sym (holds-overwrite id j n c zones e))
        (v.ready id);
}
