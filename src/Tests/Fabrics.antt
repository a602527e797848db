-- ===== src/Tests/Fabrics.antt =====
-- Runs of the Fabric service of crates/paraegox-fabric.
use para_egox.Prelude.{◌≡◌, ◌↔◌, Bool, true, not, none, some, [], ◌∷◌, ok, nat_eq}
use para_egox.Text.{Text, text, is_empty}
use para_egox.Fabric.{new_with_bindings}
use para_egox.Fabric.Acceptance.{IsBuilt, new_with_bindings_iff}
use para_egox.Fabric.Queue.{
  Query, Ingress, Handlers, new_ingress, admit_query, initial, after, opens, arrives,
}
use para_egox.Fabric.Accounts.{Accounted, Reach-Accounted}

abbrev any_key : Text → Bool
any_key key = not (is_empty key)

new_with_bindings_iff_example :
    (new_with_bindings any_key (text "tcp/127.0.0.1:7447") none (text "a/b" ∷ []) ≡ ok tt)
    ↔ IsBuilt any_key (text "tcp/127.0.0.1:7447") none (text "a/b" ∷ [])
new_with_bindings_iff_example =
    new_with_bindings_iff any_key (text "tcp/127.0.0.1:7447") none (text "a/b" ∷ [])

abbrev echo : Handlers
echo index snapshot payload = ok payload

abbrev query : Query
query = record { id = 3; payload = some (1 ∷ 2 ∷ []) }

abbrev opened : Ingress
opened = record new_ingress { admission_open = true }

Reach-Accounted_example : Accounted (admit_query opened 0 query) (3 ∷ [])
Reach-Accounted_example =
    Reach-Accounted {handlers = echo}
      (after (after initial (opens new_ingress)) (arrives opened 0 query))
