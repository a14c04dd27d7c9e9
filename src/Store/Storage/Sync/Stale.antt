-- ===== src/Store/Storage/Sync/Stale.antt =====
-- What `Sync` of pkg/store/storage.go returns for deletion, and what it returns as the state.
use saiki.Prelude.{
  ◌≡◌, refl, ◌⊎◌, inl, inr, Bool, true, false, ◌||◌, codes, [], ◌∷◌, Option, none, some,
  if◌then◌else◌, Str, ◌==◌, str_eq, All, All-append,
}
use saiki.Golang.Strings.{trim_prefix}
use saiki.Golang.FilePath.{slash, dir}
use saiki.Errors.{Error, skip_dir, Result, ok, err}
use saiki.Handler.{ResourceHandler, ResourceHandlers, handler_for}
use saiki.Store.Revision.{Revision, resource_key, parse_lazy_loading_revision}
use saiki.Store.Backend.{ListObject}
use saiki.Store.Backend.Walk.{walk-inv}
use saiki.Store.Storage.{Env, RevisionStore}
use saiki.Store.Storage.State.Keyed.{AllKeyed, insert-append-AllKeyed}
use saiki.Store.Storage.Sync.{
  Synced, store_key, track, mark, sync_tracked, sync_revision, sync_visit, sync,
}

module _ {U : Type 0} (delete_untracked : Bool) (handlers : ResourceHandlers U) where
  abbrev watcher : Revision U → Option (ResourceHandler U)
  watcher rev = handler_for handlers rev.api_version rev.kind rev.namespace

  -- its handler does not know the object, or no handler does and those are to go
  abbrev pub Stale : Revision U → Type 0
  Stale rev =
      ((watcher rev ≡ none) × (delete_untracked ≡ true))
      ⊎ ((h : ResourceHandler U) × (watcher rev ≡ some h)
          × (h.get_by_key (store_key rev) ≡ ok false))

  -- under its own key, and watched
  abbrev pub Watched : Str → Revision U → Type 0
  Watched rk rev =
      (resource_key rev.fields ≡ rk) × ((h : ResourceHandler U) × (watcher rev ≡ some h))

  abbrev pub Sound : Synced U → Type 0
  Sound synced = AllKeyed Watched synced.state × All Stale synced.to_delete

  track-Sound :
      (rev : Revision U) (h : ResourceHandler U) (synced : Synced U)
      → watcher rev ≡ some h
      → Sound synced
      → Sound (track rev synced)
  unfolding track
  track-Sound rev h synced e (a, b) = (
    insert-append-AllKeyed Watched (resource_key rev.fields) rev synced.state (refl, (h, e)) a,
    b,
  )

  mark-Sound :
      (rev : Revision U) (synced : Synced U) → Stale rev → Sound synced → Sound (mark rev synced)
  unfolding mark
  mark-Sound rev synced e (a, b) = (a, All-append Stale synced.to_delete (rev ∷ []) b (e, tt))

  sync_tracked-Sound :
      (rev : Revision U) (h : ResourceHandler U) (r : Result Bool) (synced : Synced U)
      → watcher rev ≡ some h
      → h.get_by_key (store_key rev) ≡ r
      → Sound synced
      → Sound (sync_tracked rev r synced).0
  unfolding sync_tracked
  sync_tracked-Sound rev h (err x) synced e g a = track-Sound rev h synced e a
  sync_tracked-Sound rev h (ok true) synced e g a = track-Sound rev h synced e a
  sync_tracked-Sound rev h (ok false) synced e g a =
      mark-Sound rev (track rev synced) (inr (h, e, g)) (track-Sound rev h synced e a)

  sync_revision-Sound :
      (o : Option (ResourceHandler U)) (rev : Revision U) (synced : Synced U)
      → watcher rev ≡ o
      → Sound synced
      → Sound (sync_revision delete_untracked o rev synced).0
  unfolding sync_revision
  sync_revision-Sound none rev synced e a = go delete_untracked refl
    where
      go :
          (b : Bool)
          → delete_untracked ≡ b
          → Sound (
              let r : Synced U × Option Error =
                if b then (mark rev synced, none) else (synced, some skip_dir) in
              r.0)
      go true d = mark-Sound rev synced (inl (e, d)) a
      go false d = a
  sync_revision-Sound (some h) rev synced e a =
      sync_tracked-Sound rev h (h.get_by_key (store_key rev)) synced e refl a

  sync_visit-Sound :
      (synced : Synced U) (obj : ListObject)
      → Sound synced
      → Sound (sync_visit delete_untracked handlers synced obj).0
  unfolding sync_visit
  sync_visit-Sound synced obj a =
      outer (obj.is_dir || (dir obj.key == [] || dir obj.key == codes ".")) _
        (parsed (parse_lazy_loading_revision {U = U} (trim_prefix slash obj.key)))
    where
      outer :
          (b : Bool) (r : Synced U × Option Error)
          → Sound r.0
          → Sound (let x : Synced U × Option Error = if b then (synced, none) else r in x.0)
      outer true r h = a
      outer false r h = h

      parsed :
          (r : Result (Revision U))
          → Sound
              (elim r as (λ _. Synced U × Option Error) [
                | err e ↦ (synced, some e)
                | ok rev ↦ sync_revision delete_untracked (watcher rev) rev synced
              ]).0
      parsed (err e) = a
      parsed (ok rev) = sync_revision-Sound (watcher rev) rev synced refl a

-- What `Sync` gives for deletion is only ever a revision whose handler says that its object is gone,
-- or one that no handler watches, and that only if untracked revisions are to be deleted; and every
-- revision of the state that it returns is watched by a handler and stands under its own resource's
-- key. Both hold also beside an error of the walk.
pub sync-Sound :
    {U B : Type 0} (env : Env U B) (handlers : ResourceHandlers U) (s : RevisionStore B)
    → Sound env.delete_untracked handlers (sync env handlers s).0
unfolding sync
sync-Sound env handlers s =
    walk-inv (sync_visit env.delete_untracked handlers) (Sound env.delete_untracked handlers)
      (sync_visit-Sound env.delete_untracked handlers) env.bucket [] _ s.backend (tt, tt)
