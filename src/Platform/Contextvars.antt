-- ===== src/Platform/Contextvars.antt =====
-- The variables that structlog keeps for a task and merges into each of its log lines.
use smart_auth_with_kubernat.Prelude.{String, ◌≡◌, List, [], ◌∷◌}
use smart_auth_with_kubernat.Prelude.Rows.{set_item}

-- the bound variables by name, in the order of a dict
abbrev pub Context : Type 0
Context = List (String × String)

-- `dict.update`
abbrev pub update_items : Context → Context → Context
update_items [] context = context
update_items ((name, value) ∷ values) context = update_items values (set_item name value context)

pub record Contextvars : Type 1 where
  pub State : Type 0
  pub clear_contextvars : State → State
  pub bind_contextvars : Context → State → State
  -- what `merge_contextvars` adds to a line
  pub get_contextvars : State → Context

-- "Clear the context-local context" and "put keys and values into the context-local context".
pub record AreContextvars (V : Contextvars) : Type 0 where
  pub get-clear_contextvars : (s : V.State) → V.get_contextvars (V.clear_contextvars s) ≡ []
  pub get-bind_contextvars :
      (values : Context) (s : V.State)
      → V.get_contextvars (V.bind_contextvars values s) ≡ update_items values (V.get_contextvars s)
