-- ===== src/Audit.antt =====
-- backend/app/services/audit.py: the log of who did what. The column `details`, which nothing reads
-- back but the listing, is left out; the database's `ilike` is a parameter.
use distributed_task_platfor.Prelude.{
  ℕ, suc, String, Bool, ◌||◌, Option, none, some, List, [], ◌∷◌, ◌++◌, ◌==◌, ◌=ₛ◌, select, count,
}
use distributed_task_platfor.Model.Rows.{AuditLog}
use distributed_task_platfor.Model.Db.{Db}
use distributed_task_platfor.Model.Query.{filter_if, filter_if_text, column, passes, page}
use distributed_task_platfor.Auth.{User}

-- The keyword arguments of `record`.
pub record Entry : Type 0 where
  pub actor : Option User
  pub actor_id : Option ℕ
  pub actor_username : Option String
  pub action : String
  pub resource_type : String
  pub resource_id : Option String
  pub ip_address : Option String

-- An actor overrides the two arguments.
unfoldable pub audit_row : ℕ → ℕ → Entry → AuditLog
audit_row now id e = record {
  id = id;
  actor_id = elim e.actor [ none ↦ e.actor_id | some u ↦ some u.id ];
  actor_username = elim e.actor [ none ↦ e.actor_username | some u ↦ some u.username ];
  action = e.action;
  resource_type = e.resource_type;
  resource_id = e.resource_id;
  ip_address = e.ip_address;
  created_at = now;
}

unfoldable pub add_audit : ℕ → Entry → Db → Db
add_audit now e db = record db {
  audit = db.audit ++ audit_row now db.next_audit_id e ∷ [];
  next_audit_id = suc db.next_audit_id;
}

pub record AuditFilters : Type 0 where
  pub actor_id : Option ℕ
  pub action : Option String
  pub resource_type : Option String
  pub search : Option String

module _ (ilike : String → String → Bool) where
  unfoldable pub mentions : String → AuditLog → Bool
  mentions q a =
      column (λ c. ilike c q) a.actor_username || ilike a.action q || ilike a.resource_type q

  unfoldable pub audit_filters : AuditFilters → List (AuditLog → Bool)
  audit_filters f =
      filter_if f.actor_id (λ i a. column (λ c. c == i) a.actor_id)
      ++ filter_if_text f.action (λ s a. a.action =ₛ s)
      ++ filter_if_text f.resource_type (λ s a. a.resource_type =ₛ s)
      ++ filter_if_text f.search mentions

  unfoldable pub list_audit : AuditFilters → ℕ → ℕ → Db → List AuditLog
  list_audit f limit offset db =
      page (λ a. a.id) limit offset (select (passes (audit_filters f)) db.audit)

  unfoldable pub count_audit : AuditFilters → Db → ℕ
  count_audit f db = count (passes (audit_filters f)) db.audit
