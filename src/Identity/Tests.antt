-- ===== src/Identity/Tests.antt =====
-- The theorems on roles and decisions at concrete users and requests.
use aureum.Prelude.{◌≡◌, ◌⊎◌, ◌↔◌, refl, none, some, [], ◌∷◌}
use aureum.Identity.Authorization.{Resource, Action, RoleName, User, AbacRequest, evaluate_abac}
use aureum.Identity.Authorization.Decisions.{AnyRole, Grants, IsOwner, evaluate_abac_iff}

abbrev reader : User
reader = record { id = "u1"; roles = RoleName.readonly ∷ [] }

abbrev own_ledger : AbacRequest
own_ledger = record {
  user_id = "u1";
  resource_type = Resource.ledger;
  resource_id = "l1";
  action = Action.write;
  resource_owner_id = "u1";
  attributes = none;
}

abbrev tenant_request : AbacRequest
tenant_request = record {
  user_id = "u1";
  resource_type = Resource.tenant;
  resource_id = "t1";
  action = Action.delete;
  resource_owner_id = "";
  attributes = some (("tenant_id", "u1") ∷ []);
}

evaluate_abac_iff_example : (evaluate_abac (some reader) own_ledger ≡ none) ↔ (
    AnyRole reader.roles Resource.ledger Action.write
    ⊎ (IsOwner reader own_ledger × Grants RoleName.user Resource.ledger Action.write))
evaluate_abac_iff_example = evaluate_abac_iff reader own_ledger refl
