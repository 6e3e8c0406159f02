-- ===== src/Source/Registry.antt =====
-- pkg/source/registry: the built-in sources by the name of their type.
use Prim.Native.String.{String}
use kube_trigger.Base.{Bool, true, false, Option, List, []}
use kube_trigger.Base.Dict
use kube_trigger.Base.Text.{String-discrete}

-- The types that implement `Source`.
pub data Kind : Type 0 where
  resource_watcher cron_job : Kind

abbrev pub type_of : Kind → String
type_of resource_watcher = "resource-watcher"
type_of cron_job = "cronjob"

-- `Singleton`.
abbrev pub singleton : Kind → Bool
singleton resource_watcher = true
singleton cron_job = false

abbrev pub Registry : Type 0
Registry = List (String × Kind)

unfoldable pub register : Registry → String → Kind → Registry
register r name k = Dict.put String-discrete name k r

unfoldable pub get : Registry → String → Option Kind
get r name = Dict.get String-discrete name r

unfoldable pub register_from_instance : Registry → Kind → Registry
unfolding register
register_from_instance r k = register r (type_of k) k

unfoldable pub register_builtin_sources : Registry → Registry
unfolding register_from_instance
register_builtin_sources r =
    register_from_instance (register_from_instance r resource_watcher) cron_job

unfoldable pub new_with_builtin_sources : Registry
unfolding register_builtin_sources
new_with_builtin_sources = register_builtin_sources []
