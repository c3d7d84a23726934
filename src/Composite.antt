-- ===== src/Composite.antt =====
-- `CompositeBackend` of src/backend/composite.ts: one table of tools over several backends. A
-- backend is a parameter: what its `listTools` and its `callTool` give.
use chatgpt_web_agent.Base.{
  String, ◌<>◌, false, Option, none, some, List, [], ◌∷◌, ◌++◌, map, is_some, if◌then◌else◌, Result,
  ok, err, ◌≡◌, refl, sym, ap, ◌∙◌, arith, subst, ok-injective, if-cases,
}
use chatgpt_web_agent.Base.Table.{Table, get, put}
use chatgpt_web_agent.Base.Table.Laws.{NodupKeys, put-NodupKeys}

pub record Backend (D A R : Type 0) : Type 0 where
  pub list_tools : Result (List D)
  pub call_tool : String → A → R

-- The routes as they are after a call, and what it returns or throws: a call that throws leaves the
-- routes that it had made.
abbrev pub Listed : Type 0 → Type 0 → Type 0 → Type 0
Listed D A R = Result (List D) × Table (Backend D A R)

-- The names that have a route.
unfoldable pub keys : {V : Type 0} → Table V → List String
keys [] = []
keys ((k, v) ∷ t) = k ∷ keys t

keys-put :
    {V : Type 0} (k : String) (v : V) (t : Table V)
    → is_some (get k t) ≡ false
    → keys (put k v t) ≡ keys t ++ (k ∷ [])
unfolding keys get put
keys-put k v [] h = refl
keys-put k v ((j, w) ∷ t) h = ground (arith, keys-put k v t)

map-snoc :
    {D : Type 0} (f : D → String) (ds : List D) (d : D)
    → map f (ds ++ (d ∷ [])) ≡ map f ds ++ (f d ∷ [])
map-snoc f [] d = refl
map-snoc f (x ∷ ds) d = ap (λ l. f x ∷ l) (map-snoc f ds d)

module _ {D A R : Type 0} (name : D → String) where
  -- The inner loop, over the descriptors of one backend.
  unfoldable pub list_descriptors :
      Backend D A R → List D → List D → Table (Backend D A R) → Listed D A R
  list_descriptors backend [] descriptors routes = (ok descriptors, routes)
  list_descriptors backend (d ∷ ds) descriptors routes =
      let rest =
        list_descriptors backend ds (descriptors ++ (d ∷ [])) (put (name d) backend routes) in
      if is_some (get (name d) routes)
      then (err ("duplicate local MCP tool name: " <> name d), routes)
      else rest

  unfoldable pub list_one :
      Backend D A R → Result (List D) → List D → Table (Backend D A R) → Listed D A R
  list_one b (err e) descriptors routes = (err e, routes)
  list_one b (ok ds) descriptors routes = list_descriptors b ds descriptors routes

  abbrev go_on : Listed D A R → (List D → Table (Backend D A R) → Listed D A R) → Listed D A R
  go_on (err e, routes) next = (err e, routes)
  go_on (ok descriptors, routes) next = next descriptors routes

  -- The outer loop.
  unfoldable pub list_backends :
      List (Backend D A R) → List D → Table (Backend D A R) → Listed D A R
  list_backends [] descriptors routes = (ok descriptors, routes)
  list_backends (b ∷ bs) descriptors routes =
      go_on (list_one b b.list_tools descriptors routes) λ ds rs. list_backends bs ds rs

  -- `listTools`, which begins with `#routes.clear()`
  unfoldable pub list_tools : List (Backend D A R) → Listed D A R
  list_tools backends = list_backends backends [] []

  -- The tools are listed where no route is there yet.
  unfoldable pub ensure_routes : List (Backend D A R) → Table (Backend D A R) → Listed D A R
  ensure_routes backends [] = list_tools backends
  ensure_routes backends (r ∷ routes) = (ok [], r ∷ routes)

  abbrev call_route : (String → R) → String → A → Option (Backend D A R) → R
  call_route tool_error tool args none = tool_error ("Tool not available: " <> tool)
  call_route tool_error tool args (some b) = b.call_tool tool args

  abbrev answer_call : (String → R) → String → A → Listed D A R → Result R × Table (Backend D A R)
  answer_call tool_error tool args (err e, routes) = (err e, routes)
  answer_call tool_error tool args (ok _, routes) =
      (ok (call_route tool_error tool args (get tool routes)), routes)

  -- `callTool`; `tool_error` makes the result of an error.
  unfoldable pub call_tool :
      (String → R)
      → List (Backend D A R)
      → String
      → A
      → Table (Backend D A R)
      → Result R × Table (Backend D A R)
  call_tool tool_error backends tool args routes =
      answer_call tool_error tool args (ensure_routes backends routes)

  -- Of the routes: each name has one route, and the names are those of the descriptors, in order.
  abbrev Matches : List D → Table (Backend D A R) → Type 0
  Matches descriptors routes = NodupKeys routes × (keys routes ≡ map name descriptors)

  -- The same of a call that returns.
  data Listing : Listed D A R → Type 0 where
    listed : {ds : List D} {rs : Table (Backend D A R)} → Matches ds rs → Listing (ok ds, rs)
    threw : {e : String} {rs : Table (Backend D A R)} → Listing (err e, rs)

  list_descriptors-Listing :
      (b : Backend D A R) (ds descriptors : List D) (routes : Table (Backend D A R))
      → Matches descriptors routes
      → Listing (list_descriptors b ds descriptors routes)
  unfolding list_descriptors
  list_descriptors-Listing b [] descriptors routes h = listed h
  list_descriptors-Listing b (d ∷ ds) descriptors routes (nodup, same) =
      if-cases Listing (is_some (get (name d) routes)) _ _ (λ _. threw)
        λ fresh. list_descriptors-Listing b ds (descriptors ++ (d ∷ [])) (put (name d) b routes) (
          put-NodupKeys (name d) b routes nodup,
          keys-put (name d) b routes fresh
              ∙ ap (λ l. l ++ (name d ∷ [])) same
              ∙ sym (map-snoc name descriptors d),
        )

  list_one-Listing :
      (b : Backend D A R) (answer : Result (List D)) (descriptors : List D)
      (routes : Table (Backend D A R))
      → Matches descriptors routes
      → Listing (list_one b answer descriptors routes)
  unfolding list_one
  list_one-Listing b (err e) descriptors routes h = threw
  list_one-Listing b (ok ds) descriptors routes h =
      list_descriptors-Listing b ds descriptors routes h

  go_on-Listing :
      (r : Listed D A R) (next : List D → Table (Backend D A R) → Listed D A R)
      → Listing r
      → ((ds : List D) (rs : Table (Backend D A R)) → Matches ds rs → Listing (next ds rs))
      → Listing (go_on r next)
  go_on-Listing _ next (listed h) k = k _ _ h
  go_on-Listing _ next threw k = threw

  list_backends-Listing :
      (bs : List (Backend D A R)) (descriptors : List D) (routes : Table (Backend D A R))
      → Matches descriptors routes
      → Listing (list_backends bs descriptors routes)
  unfolding list_backends
  list_backends-Listing [] descriptors routes h = listed h
  list_backends-Listing (b ∷ bs) descriptors routes h =
      go_on-Listing (list_one b b.list_tools descriptors routes) _
        (list_one-Listing b b.list_tools descriptors routes h)
        λ ds rs. list_backends-Listing bs ds rs

  Listing-inv : (r : Listed D A R) (ds : List D) → Listing r → r.0 ≡ ok ds → Matches ds r.1
  Listing-inv _ ds (listed {ds = es} {rs} h) e = subst (λ l. Matches l rs) (ok-injective e) h
  Listing-inv _ ds threw e = absurd (cc e)

  -- When `listTools` returns, no tool name has two routes, and the names that have a route are those
  -- of the descriptors that it returns, in their order, whatever the backends list.
  pub list_tools-routes :
      (backends : List (Backend D A R)) (ds : List D)
      → (list_tools backends).0 ≡ ok ds
      → NodupKeys (list_tools backends).1 × (keys (list_tools backends).1 ≡ map name ds)
  unfolding list_tools keys
  list_tools-routes backends ds e =
      Listing-inv (list_tools backends) ds (list_backends-Listing backends [] [] (tt, refl)) e
