-- ===== src/Search/Tests.antt =====
-- A search whose payload is the response or the embedding itself.
use hll.Prelude.{ℕ, ◌≡◌, refl, some, [], ◌∷◌, true, ◌⊎◌, inl, inr}
use hll.Exec.{Result, ok, err}
use hll.Search.{
  SearchResponse, Error, cache_validation_error, Health, answers, fails, Redis, Service, search,
}
use hll.Search.Soundness.{Sound, Explained, Reliable, search-Sound}
use hll.Search.Uncached.{uncached, search-uncached}

abbrev Payload : Type 0
Payload = SearchResponse ⊎ ℕ

abbrev read_response : Payload → Result Error SearchResponse
read_response (inl r) = ok r
read_response (inr n) = err cache_validation_error

abbrev read_embedding : Payload → Result Error ℕ
read_embedding (inl r) = err cache_validation_error
read_embedding (inr n) = ok n

abbrev service : (ℕ → Health) → Service Payload ℕ
service redis = record {
  search_searchable_cards = λ query embedding limit pool. ok (record {
    matches = record { node_id = 7; current_version = 1; title = "Ring"; content = "c" } ∷ [];
    vector_candidate_count = 1;
  });
  get_connected_titles = λ ids excluded limit. ok ("Field" ∷ []);
  embed_text = λ query. ok 3;
  max_matched = 5;
  max_connected = 5;
  vector_candidate_pool_size = 50;
  has_response_cache = true;
  has_embedding_cache = true;
  embedding_model = some "m";
  normalize = λ query. query;
  digest_response = λ f. f.query;
  digest_embedding = λ f. f.query;
  responses = record { encode = inl; decode = read_response };
  embeddings = record { encode = inr; decode = read_embedding };
  redis = redis;
}

abbrev working : Service Payload ℕ
working = service (λ n. answers)

abbrev empty : Redis Payload
empty = record { entries = []; operations = 0 }

reliable : Reliable working
reliable = record {
  response_apart = λ a b h. h;
  embedding_apart = λ a b h. h;
  responses_back = λ r. refl;
  embeddings_back = λ e. refl;
}

search-Sound_example :
    Sound working (search working "ring" empty).1
    × Explained working "ring" (search working "ring" empty).0
search-Sound_example = search-Sound working reliable "ring" empty (record { entries = tt })

search-uncached_example :
    (search (service (λ n. fails)) "ring" empty).0 ≡ uncached (service (λ n. fails)) "ring"
search-uncached_example = search-uncached (service (λ n. fails)) (λ n. refl) "ring" empty
