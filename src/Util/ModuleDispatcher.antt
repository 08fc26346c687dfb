-- ===== src/Util/ModuleDispatcher.antt =====
-- `CModuleDispatcher` (src/dev/util/ModuleDispatcher.h, ModuleDispatcher.cpp), by which a message gets
-- from one module to others. The modules are a store: the object that a pointer refers to.
pub mod Laws
mod Examples
use aods.Base.{
  Bool, Bytes-Key, List, Option, [], and_then, false, if◌then◌else◌, insert, lookup, none, some,
  true, ℕ, ℕ-Key, ◌==◌, ◌∷◌,
}
use aods.Util.Module.{Module, Post, post_msg}
use aods.Util.OutMsg.{module_broadcast}

-- `m_mapIM` and `m_mapMIM`, from identifiers to pointers.
pub record ModuleDispatcher : Type 0 where
  pub im : List (ℕ × ℕ)
  pub mim : List (ℕ × ℕ)

unfoldable pub append_module : ℕ → ℕ → ModuleDispatcher → ModuleDispatcher
append_module id module_ptr d = record d { im = insert id module_ptr d.im }

unfoldable pub append_monitor_module : ℕ → ℕ → ModuleDispatcher → ModuleDispatcher
append_monitor_module id module_ptr d = record d { mim = insert id module_ptr d.mim }

abbrev pub Store : Type 0
Store = ℕ → Module

-- `PostMsg` of the module that a pointer refers to.
abbrev pub post_at : Post → ℕ → Store → Option (Store × Bool)
post_at p module_ptr st =
    and_then (post_msg p (st module_ptr))
      λ (m, done). some (λ x. if x == module_ptr then m else st x, done)

-- The loop over a map.
unfoldable pub post_each : Post → List (ℕ × ℕ) → Store → Option Store
post_each p [] st = some st
post_each p ((id, module_ptr) ∷ ms) st =
    and_then (post_at p module_ptr st) λ (st', done). post_each p ms st'

abbrev pub post_one : Post → Store → Option ℕ → Option (Store × Bool)
post_one p st none = some (st, false)
post_one p st (some module_ptr) = post_at p module_ptr st

-- `Dispatch`
unfoldable pub dispatch : ℕ → Post → ModuleDispatcher → Store → Option (Store × Bool)
dispatch rmi p d st = and_then (post_each p d.mim st) λ st'.
    if rmi == module_broadcast
    then (and_then (post_each p d.im st') λ st''. some (st'', true))
    else post_one p st' (lookup rmi d.im)
