-- ===== src/Handler.antt =====
-- pkg/handler/resource.go: the informers of the watched resources, by API version, kind and namespace.
pub mod Keys
use saiki.Prelude.{◌≡◌, Bool, [], ◌∷◌, Option, none, some, arith, if◌then◌else◌, Str, ◌==◌, str_eq}
use saiki.Prelude.Dict.{Dict, lookup, insert, lookup-insert}
use saiki.Golang.FilePath.{join_path}
use saiki.Errors.{Result}

-- What the program asks an informer's store: whether it has an object, by key or by the object.
pub record ResourceHandler (U : Type 0) : Type 0 where
  pub get_by_key : Str → Result Bool
  pub store_get : U → Result Bool

abbrev pub ResourceHandlers : Type 0 → Type 0
ResourceHandlers U = Dict Str (ResourceHandler U)

abbrev pub handler_key : Str → Str → Str → Str
handler_key api_version kind namespace = join_path (api_version ∷ kind ∷ namespace ∷ [])

module _ {U : Type 0} where
  -- `Set`
  unfoldable pub set_handler :
      Str → Str → Str → ResourceHandler U → ResourceHandlers U → ResourceHandlers U
  set_handler api_version kind namespace h r = insert (handler_key api_version kind namespace) h r

  -- `HandlerFor`: the handler of the namespace, or else that of the whole cluster
  unfoldable pub handler_for : ResourceHandlers U → Str → Str → Str → Option (ResourceHandler U)
  handler_for r api_version kind namespace =
      elim (lookup (handler_key api_version kind namespace) r) [
        | none ↦ lookup (handler_key api_version kind []) r
        | some h ↦ some h
      ]

  -- After `Set`, `HandlerFor` returns the new handler at the same key. Elsewhere it returns what it
  -- returned before, but for a key that had no handler of its own and falls back to the cluster's key
  -- that was set.
  pub handler_for-set_handler :
      (r : ResourceHandlers U) (h : ResourceHandler U) (v k n v' k' n' : Str)
      → handler_for (set_handler v k n h r) v' k' n' ≡ (
          if handler_key v k n == handler_key v' k' n'
          then some h
          else elim (lookup (handler_key v' k' n') r) [
            | none ↦
                if handler_key v k n == handler_key v' k' []
                then some h
                else lookup (handler_key v' k' []) r
            | some own ↦ some own
          ])
  unfolding handler_for set_handler
  handler_for-set_handler r h v k n v' k' n' = ground (
    arith,
    lookup-insert (handler_key v k n) (handler_key v' k' n') h r,
    lookup-insert (handler_key v k n) (handler_key v' k' []) h r,
  )
