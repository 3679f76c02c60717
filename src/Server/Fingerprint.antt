-- ===== src/Server/Fingerprint.antt =====
-- packages/core/src/ipc/core-server.ts: the order of an object's keys does not change a request.
use agent_town.Prelude.{String, false, ◌≡◌, refl, ap, ◌∙◌, List, ◌∷◌, map, ◌==◌, string_eq, arith}
use agent_town.Contract.Value.{Value, obj, arr, Items, no_items, item, Fields, end, field}
use agent_town.Contract.Ipc.{IpcRequest}
use agent_town.Orchestrator.Payload.{◌⧺◌}
use agent_town.Storage.Order.{sort_by, insert_by}
use agent_town.Storage.Order.Laws.{insert_by_comm}
use agent_town.Server.Requests.{
  Encoding, pair_text, join, stable_json, stable_items, stable_pairs, request_fingerprint,
}

-- The same JSON, where the fields of an object, and of those within it, may stand in another order.
mutual
  pub data Alike : Value → Value → Type 0 where
    itself : (v : Value) → Alike v v
    objects : (fs gs : Fields) → AlikeFields fs gs → Alike (obj fs) (obj gs)
    arrays : (xs ys : Items) → AlikeItems xs ys → Alike (arr xs) (arr ys)

  pub data AlikeItems : Items → Items → Type 0 where
    nothing : AlikeItems no_items no_items
    both :
        (v w : Value) (xs ys : Items)
        → Alike v w
        → AlikeItems xs ys
        → AlikeItems (item v xs) (item w ys)

  pub data AlikeFields : Fields → Fields → Type 0 where
    empty : AlikeFields end end
    same_key :
        (k : String) (v w : Value) (fs gs : Fields)
        → Alike v w
        → AlikeFields fs gs
        → AlikeFields (field k v fs) (field k w gs)
    swapped :
        (j k : String) (v w : Value) (fs : Fields)
        → j == k ≡ false
        → AlikeFields (field j v (field k w fs)) (field k w (field j v fs))
    joined : (fs gs hs : Fields) → AlikeFields fs gs → AlikeFields gs hs → AlikeFields fs hs

abbrev sorted : Encoding → Fields → List (String × String)
sorted e fs = sort_by (λ p. p.0) (stable_pairs e fs)

mutual
  unfolding stable_json sort_by

  stable_json-Alike : (e : Encoding) {v w : Value} → Alike v w → stable_json e v ≡ stable_json e w
  stable_json-Alike e (itself v) = refl
  stable_json-Alike e (objects fs gs h) =
      ap (λ ps. "{" ⧺ (join "," (map (pair_text e) ps) ⧺ "}")) (sorted-AlikeFields e h)
  stable_json-Alike e (arrays xs ys h) =
      ap (λ ts. "[" ⧺ (join "," ts ⧺ "]")) (stable_items-AlikeItems e h)

  stable_items-AlikeItems :
      (e : Encoding) {xs ys : Items} → AlikeItems xs ys → stable_items e xs ≡ stable_items e ys
  stable_items-AlikeItems e nothing = refl
  stable_items-AlikeItems e (both v w xs ys h k) =
      let p = stable_json-Alike e h in let q = stable_items-AlikeItems e k in λ i. p i ∷ q i

  sorted-AlikeFields :
      (e : Encoding) {fs gs : Fields} → AlikeFields fs gs → sorted e fs ≡ sorted e gs
  sorted-AlikeFields e empty = refl
  sorted-AlikeFields e (same_key k v w fs gs h r) =
      let p = stable_json-Alike e h in
      let q = sorted-AlikeFields e r in λ i. insert_by (λ x. x.0) (k, p i) (q i)
  sorted-AlikeFields e (swapped j k v w rest n) =
      insert_by_comm (λ p. p.0) (j, stable_json e v) (k, stable_json e w) (sorted e rest) n
  sorted-AlikeFields e (joined fs gs hs h r) = sorted-AlikeFields e h ∙ sorted-AlikeFields e r

-- Two requests with the same method have the same fingerprint when their params are alike: the
-- fields of the params, and of the objects within them, may stand in any order.
pub request_fingerprint-AlikeFields :
    (e : Encoding) (r s : IpcRequest)
    → r.method ≡ s.method
    → AlikeFields r.params s.params
    → request_fingerprint e r ≡ request_fingerprint e s
unfolding request_fingerprint stable_json
request_fingerprint-AlikeFields e r s m h = ground (arith, m, sorted-AlikeFields e h)
