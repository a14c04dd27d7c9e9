-- ===== src/Tests/Timed.antt =====
-- The timed backend at a concrete backend that removes in bulk.
use saiki.Prelude.{◌≡◌, List, [], ◌∷◌, none, Str, codes}
use saiki.Errors.{ok}
use saiki.Store.Backend.{s3_provider, open_and_read, remove_all, read_dir, walk}
use saiki.Store.Backend.Instrumented.{
  Latencies, Backend, AnyBackend, bulk_removing, Request, serve_all, serve_all-timings,
  new_instrumented_backend, on_latencies, untimed, timings,
}
use saiki.Tests.{Files, table}

-- the blob backend over a table
abbrev blobs : Backend Str (List Str) Files
blobs = record {
  create_by = λ key s. (ok key, s);
  open_by = λ key s. (open_and_read table key s, s);
  remove_by = λ key s. table.bucket_delete key s;
  read_dir_by = λ path s. (read_dir table path s, s);
  walk_by = λ root walk_fn acc s. (walk table root walk_fn acc s, s);
  close_by = λ s. (none, s);
  provider_by = codes "blob";
}

abbrev bulk_blobs : AnyBackend Str (List Str) Files
bulk_blobs =
    bulk_removing blobs
      (λ keys s. let (deleted, e, s') = remove_all table s3_provider keys s in ((deleted, e), s'))

abbrev two_requests : List (Request (List Str))
two_requests = Request.remove (codes "a") ∷ Request.remove_all (codes "b" ∷ codes "c" ∷ []) ∷ []

abbrev no_latencies : Latencies
no_latencies = record { delete_latency = 0; read_dir_latency = 0; walk_latency = 0 }

serve_all-timings_example :
    serve_all
      (new_instrumented_backend on_latencies (untimed bulk_blobs))
      two_requests
      ((codes "a", []) ∷ [], no_latencies)
    ≡ (
      (serve_all bulk_blobs two_requests ((codes "a", []) ∷ [])).0,
      (
        (serve_all bulk_blobs two_requests ((codes "a", []) ∷ [])).1,
        timings bulk_blobs two_requests no_latencies,
      ),
    )
serve_all-timings_example =
    serve_all-timings bulk_blobs two_requests ((codes "a", []) ∷ []) no_latencies
