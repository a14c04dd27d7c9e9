-- ===== src/Tests/Parts.antt =====
-- The theorems about the other parts at concrete inputs.
use saiki.Prelude.{
  Bool, ◌⊎◌, inl, inr, Option, ◌≡◌, refl, true, false, List, [], ◌∷◌, Str, codes, str_eq,
}
use saiki.Prelude.Int.{pos, int_eq}
use saiki.Errors.{Error, Result, ok, ◌>>=◌}
use saiki.Handler.{ResourceHandler}
use saiki.Store.Storage.{RevisionStore}
use saiki.Store.Storer.{Storer, store_storer}
use saiki.Store.AsyncWriter.{
  AsyncCall, async_create, async_update, async_delete, Writes, Goroutine, writing, sending,
  AsyncState, AsyncSteps, acquired, advanced, wrote, received, done, step,
}
use saiki.Store.AsyncWriter.Answered.{Answered, steps-Answered}
use saiki.Store.Config.{ApiResource, ApiResourceList}
use saiki.Store.Crypt.{Aead, Opens, aes_encrypt, aes_decrypt, aes_decrypt-aes_encrypt}
use saiki.Cmd.Revisions.{Flags, delete_verb, refuses, select, select_missing}
use saiki.Tests.{Files, env, web_at, empty_store}

abbrev knows_all : ResourceHandler Str
knows_all = record { get_by_key = λ k. ok true; store_get = λ u. ok true }

abbrev storer : Storer Str (RevisionStore Files)
storer = store_storer env true

-- a write of two actions: nothing yet, and then an update
abbrev two_actions : Writes Str (RevisionStore Files) (AsyncCall Str × Bool)
two_actions = record { begin = λ call. (call, false); advance = act }
  where
    updated :
        Option Error × RevisionStore Files
        → ((AsyncCall Str × Bool) ⊎ Option Error) × RevisionStore Files
    updated r = (inr r.0, r.1)

    act :
        AsyncCall Str × Bool
        → RevisionStore Files
        → ((AsyncCall Str × Bool) ⊎ Option Error) × RevisionStore Files
    act (call, false) s = (inl (call, true), s)
    act (async_create rev, true) s = updated (storer.update_in rev s)
    act (async_update rev, true) s = updated (storer.update_in rev s)
    act (async_delete rev, true) s = updated (storer.update_in rev s)

abbrev first_call : AsyncCall Str
first_call = async_update (web_at (pos 4))

abbrev second_call : AsyncCall Str
second_call = async_update (web_at (pos 9))

abbrev going : AsyncCall Str → Bool → Goroutine Str (AsyncCall Str × Bool)
going call b = record { call = call; doing = writing (call, b) }

abbrev written : Goroutine Str (AsyncCall Str × Bool)
written = record {
  call = second_call;
  doing = sending (storer.update_in (web_at (pos 9)) empty_store).0;
}

abbrev idle : AsyncState Str (RevisionStore Files) (AsyncCall Str × Bool)
idle = record { free = 2; goroutines = []; stored = empty_store }

abbrev once : RevisionStore Files
once = (storer.update_in (web_at (pos 9)) empty_store).1

abbrev twice : RevisionStore Files
twice = (storer.update_in (web_at (pos 4)) once).1

-- the response of the second write is not taken
abbrev blocked : AsyncState Str (RevisionStore Files) (AsyncCall Str × Bool)
blocked = record { free = 1; goroutines = written ∷ []; stored = twice }

-- two writes whose actions alternate
two_writes : AsyncSteps two_actions idle blocked
two_writes = step (acquired first_call) (
    step (acquired second_call) (
      step
        (advanced (going second_call false ∷ []) [] first_call (first_call, false)
          (first_call, true) refl)
        (step
          (advanced [] (going first_call true ∷ []) second_call (second_call, false)
            (second_call, true) refl)
          (step
            (wrote [] (going first_call true ∷ []) second_call (second_call, true)
              (storer.update_in (web_at (pos 9)) empty_store).0 refl)
            (step
              (wrote (written ∷ []) [] first_call (first_call, true)
                (storer.update_in (web_at (pos 4)) once).0 refl)
              (step
                (received (written ∷ []) [] first_call (storer.update_in (web_at (pos 4)) once).0)
                done))))))

steps-Answered_example : Answered two_actions two_writes
steps-Answered_example = steps-Answered two_actions two_writes

abbrev pods : ApiResource
pods = record {
  name = codes "pods";
  singular_name = codes "pod";
  kind = codes "pod";
  short_names = codes "po" ∷ [];
  namespaced = true;
}

abbrev core : List ApiResourceList
core = record { group_version = codes "v1"; api_resources = pods ∷ [] } ∷ []

-- there is no group before the version
abbrev no_group : Str → Result Str
no_group text = ok []

-- an AEAD that hides nothing
abbrev clear : Aead
clear = record { nonce_size = 2; seal = λ nonce t. t; open_sealed = λ nonce t. ok t }

clear-Opens : Opens clear
clear-Opens nonce t h = refl

aes_decrypt-aes_encrypt_example :
    (aes_encrypt clear (ok (codes "no")) (codes "text") >>= aes_decrypt clear) ≡ ok (codes "text")
aes_decrypt-aes_encrypt_example =
    aes_decrypt-aes_encrypt clear (codes "no") (codes "text") clear-Opens refl

-- `revisions delete pod web --revision 8`
abbrev delete_eight : Flags
delete_eight = record {
  revision = pos 8;
  revision_text = codes "8";
  at = pos 0;
  ago = pos 0;
  all = false;
}

mistyped_version :
    (refuses delete_verb delete_eight ≡ false)
    × (select delete_eight (pos 0) (web_at (pos 4) ∷ web_at (pos 7) ∷ [])
        ≡ web_at (pos 4) ∷ web_at (pos 7) ∷ [])
mistyped_version =
    select_missing delete_eight (pos 0) (web_at (pos 4) ∷ web_at (pos 7) ∷ []) refl refl (λ e. cc)
      ((λ e. cc), ((λ e. cc), tt))
