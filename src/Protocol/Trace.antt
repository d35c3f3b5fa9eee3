-- ===== src/Protocol/Trace.antt =====
-- The trace that a chain of child requests carries.
use distributed_workbench.Base.{Str, List, [], ◌∷◌, ◌≡◌, refl}
use distributed_workbench.Json.{Value}
use distributed_workbench.Protocol.{Request, child, new_request, unwrap_or}

-- A call made in the course of another.
pub record Hop : Type 0 where
  pub action : Str
  pub params : Value
  pub uuid : Str

unfoldable pub descend : Request → List Hop → Request
descend request [] = request
descend request (h ∷ hs) = descend (child request h.action h.params h.uuid) hs

-- The correlation under which a request is recorded.
abbrev pub correlation : Request → Str
correlation request = unwrap_or request.correlation_id request.request_id

-- However many calls deep, a request keeps the correlation, the run and the agent session of the
-- request that started the chain.
pub descend-correlation :
    (request : Request) (hops : List Hop)
    → (correlation (descend request hops) ≡ correlation request)
      × ((descend request hops).run_id ≡ request.run_id)
      × ((descend request hops).agent_session_id ≡ request.agent_session_id)
unfolding descend child new_request
descend-correlation request [] = (refl, refl, refl)
descend-correlation request (h ∷ hs) =
    descend-correlation (child request h.action h.params h.uuid) hs
