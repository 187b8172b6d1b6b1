-- ===== src/ModuleGraph/Reexport.antt =====
-- lanorme/module_graph.py: modules that only re-export.
use lanorme.Prelude.{
  Bool, true, false, ◌&&◌, Option, none, some, List, [], ◌∷◌, nat_eq, list_eq, pair_eq, triple_eq,
  all, contains,
}
use lanorme.Text.{Text, codes, starts_with, ends_with}

-- A statement as `is_reexport_only` tells them apart: `inert` is an import, `pass`, `del` or a
-- constant expression, `assign` has the names of its targets, `none` for one that is no name, and
-- `assign_name` is an annotated or augmented assignment to a name.
mutual
  pub data Statement : Type 0 where
    inert : Statement
    function_def : Text → Statement
    assign : List (Option Text) → Statement
    assign_name : Text → Statement
    if_block : Block → Block → Statement
    try_block : Block → Block → Block → Handlers → Statement
    opaque_statement : Statement

  pub data Block : Type 0 where
    no_more : Block
    then_next : Statement → Block → Block

  pub data Handlers : Type 0 where
    no_handler : Handlers
    handler : Block → Handlers → Handlers

unfoldable pub is_dunder : Text → Bool
is_dunder name = starts_with name (codes "__") && ends_with name (codes "__")

-- `_MODULE_HOOKS`
unfoldable pub module_hooks : List Text
module_hooks = codes "__getattr__" ∷ (codes "__dir__" ∷ [])

is_dunder_target : Option Text → Bool
unfolding is_dunder
is_dunder_target none = false
is_dunder_target (some name) = is_dunder name

unfoldable mutual
  unfolding is_dunder_target module_hooks

  pub is_reexport_statement : Statement → Bool
  is_reexport_statement inert = true
  is_reexport_statement (function_def name) = contains module_hooks name
  is_reexport_statement (assign targets) = all is_dunder_target targets
  is_reexport_statement (assign_name name) = is_dunder name
  is_reexport_statement (if_block body orelse) = is_reexport_block body && is_reexport_block orelse
  is_reexport_statement (try_block body orelse finally handlers) =
      is_reexport_block body
      && (is_reexport_block orelse && (is_reexport_block finally && are_reexport_handlers handlers))
  is_reexport_statement opaque_statement = false

  -- `is_reexport_only` on a module's body, and on each branch of a statement
  pub is_reexport_block : Block → Bool
  is_reexport_block no_more = true
  is_reexport_block (then_next s rest) = is_reexport_statement s && is_reexport_block rest

  pub are_reexport_handlers : Handlers → Bool
  are_reexport_handlers no_handler = true
  are_reexport_handlers (handler body rest) = is_reexport_block body && are_reexport_handlers rest
