-- ===== src/Search.antt =====
-- modules/search of apps/api/src, with the JSON cache of shared/cache: a search asks the caches, the
-- embedding service and the cards. The timing log is left out.
-- Redis keeps a payload under a key; by the number of its operations so far, it answers, has let the key
-- expire, or fails.
mod Tests
pub mod Soundness
pub mod Uncached
use hll.Prelude.{
  ℕ, ◌+◌, String, Bool, true, false, ◌&&◌, Option, none, some, List, [], ◌∷◌, map, str_eq, find,
  if◌then◌else◌,
}
use hll.Exec.{Result, ok, err, Exec, pure, raise, lift, gets, modify, ◌>>=◌, ◌>>◌, try_except}

pub record MatchedCard : Type 0 where
  pub node_id : ℕ
  pub current_version : ℕ
  pub title : String
  pub content : String

pub record SearchResponse : Type 0 where
  pub matched_cards : List MatchedCard
  pub connected_titles : List String

pub record SearchableCardResult : Type 0 where
  pub matches : List MatchedCard
  pub vector_candidate_count : ℕ

-- The cache errors of json_cache.py, the InfrastructureError of a search, and any other exception.
pub data Error : Type 0 where
  cache_read_error cache_write_error cache_decode_error cache_validation_error : Error
  embedding_service_unavailable infrastructure_error : Error
  other : String → Error

-- `knowledge:api:search-response:v1:<digest>`, `knowledge:api:search-embedding:v1:<model>:<digest>`
pub data Key : Type 0 where
  response_key : String → Key
  embedding_key : String → String → Key

abbrev pub same_key : Key → Key → Bool
same_key (response_key a) (response_key b) = str_eq a b
same_key (response_key a) (embedding_key n b) = false
same_key (embedding_key m a) (response_key b) = false
same_key (embedding_key m a) (embedding_key n b) = str_eq m n && str_eq a b

pub data Health : Type 0 where
  answers expired fails : Health

-- `Payload` is the JSON text.
pub record Redis (Payload : Type 0) : Type 0 where
  pub entries : List (Key × Payload)
  pub operations : ℕ

-- The payloads that are digested.
pub record ResponseKeyFields : Type 0 where
  pub query : String
  pub embedding_model : String
  pub max_matched : ℕ
  pub max_connected : ℕ
  pub vector_candidate_pool_size : ℕ

pub record EmbeddingKeyFields : Type 0 where
  pub query : String
  pub embedding_model : String

abbrev pub Action : Type 0 → Type 0 → Type 0
Action Payload A = Exec Error (Redis Payload) A

-- `model_dump_json`, and `json.loads` with `model_validate`
pub record Codec (Payload A : Type 0) : Type 0 where
  pub encode : A → Payload
  pub decode : Payload → Result Error A

-- What a search is made with; `normalize` is the regular expression of `normalize_search_query`.
pub record Service (Payload Embedding : Type 0) : Type 0 where
  pub search_searchable_cards : String → Embedding → ℕ → ℕ → Result Error SearchableCardResult
  pub get_connected_titles : List ℕ → List String → ℕ → Result Error (List String)
  pub embed_text : String → Result Error Embedding
  pub max_matched : ℕ
  pub max_connected : ℕ
  pub vector_candidate_pool_size : ℕ
  pub has_response_cache : Bool
  pub has_embedding_cache : Bool
  pub embedding_model : Option String
  pub normalize : String → String
  pub digest_response : ResponseKeyFields → String
  pub digest_embedding : EmbeddingKeyFields → String
  pub responses : Codec Payload SearchResponse
  pub embeddings : Codec Payload Embedding
  pub redis : ℕ → Health

module _ {Payload : Type 0} where
  abbrev pub text_of : Option (Key × Payload) → Option Payload
  text_of none = none
  text_of (some e) = some e.1

  abbrev pub stored : Key → List (Key × Payload) → Option Payload
  stored key entries = text_of (find (λ (e : Key × Payload). same_key e.0 key) entries)

module _ {A : Type 0} where
  abbrev pub some_model : Result Error A → Result Error (Option A)
  some_model (ok a) = ok (some a)
  some_model (err e) = err e

module _ {Payload A : Type 0} where
  abbrev pub decoded : Codec Payload A → Option Payload → Result Error (Option A)
  decoded codec none = ok none
  decoded codec (some text) = some_model (codec.decode text)

  abbrev pub read_by :
      Health → Codec Payload A → Key → List (Key × Payload) → Result Error (Option A)
  read_by answers codec key entries = decoded codec (stored key entries)
  read_by expired codec key entries = ok none
  read_by fails codec key entries = err cache_read_error

  -- `JsonRedisCache.get_model` and `set_model`
  unfoldable pub get_model : (ℕ → Health) → Codec Payload A → Key → Action Payload (Option A)
  get_model redis codec key s =
      (read_by (redis s.operations) codec key s.entries, record s { operations = s.operations + 1 })

  abbrev pub write_by :
      Health → Codec Payload A → Key → A → Redis Payload → Result Error Unit × Redis Payload
  write_by answers codec key a s = (ok tt, record s { entries = (key, codec.encode a) ∷ s.entries })
  write_by expired codec key a s = (ok tt, s)
  write_by fails codec key a s = (err cache_write_error, s)

  unfoldable pub set_model : (ℕ → Health) → Codec Payload A → Key → A → Action Payload Unit
  set_model redis codec key a s =
      write_by (redis s.operations) codec key a (record s { operations = s.operations + 1 })

module _ {Payload Embedding : Type 0} (svc : Service Payload Embedding) where
  open svc use {
    search_searchable_cards, get_connected_titles, embed_text, max_matched, max_connected,
    vector_candidate_pool_size, has_response_cache, has_embedding_cache, embedding_model, normalize,
    digest_response, digest_embedding, responses, embeddings, redis,
  }

  abbrev pub search_response_cache_key : String → String → Key
  search_response_cache_key query model = response_key (
      digest_response (record {
        query = normalize query;
        embedding_model = model;
        max_matched = max_matched;
        max_connected = max_connected;
        vector_candidate_pool_size = vector_candidate_pool_size;
      }))

  abbrev pub search_embedding_cache_key : String → String → Key
  search_embedding_cache_key query model =
      embedding_key model
        (digest_embedding (record { query = normalize query; embedding_model = model }))

  -- The model where there is a cache.
  abbrev pub cache_model : Bool → Option String
  cache_model false = none
  cache_model true = embedding_model

  abbrev pub get_response_by : Option String → String → Action Payload (Option SearchResponse)
  get_response_by none query = pure none
  get_response_by (some model) query =
      try_except (get_model redis responses (search_response_cache_key query model))
        (λ e. pure none)

  unfoldable pub get_cached_response : String → Action Payload (Option SearchResponse)
  unfolding get_model try_except
  get_cached_response query = get_response_by (cache_model has_response_cache) query

  abbrev pub set_response_by : Option String → String → SearchResponse → Action Payload Unit
  set_response_by none query response = pure tt
  set_response_by (some model) query response =
      try_except (set_model redis responses (search_response_cache_key query model) response)
        (λ e. pure tt)

  unfoldable pub set_cached_response : String → SearchResponse → Action Payload Unit
  unfolding set_model try_except
  set_cached_response query response =
      set_response_by (cache_model has_response_cache) query response

  abbrev pub get_embedding_by : Option String → String → Action Payload (Option Embedding)
  get_embedding_by none query = pure none
  get_embedding_by (some model) query =
      try_except (get_model redis embeddings (search_embedding_cache_key query model))
        (λ e. pure none)

  unfoldable pub get_cached_embedding : String → Action Payload (Option Embedding)
  unfolding get_model try_except
  get_cached_embedding query = get_embedding_by (cache_model has_embedding_cache) query

  abbrev pub set_embedding_by : Option String → String → Embedding → Action Payload Unit
  set_embedding_by none query embedding = pure tt
  set_embedding_by (some model) query embedding =
      try_except (set_model redis embeddings (search_embedding_cache_key query model) embedding)
        (λ e. pure tt)

  unfoldable pub set_cached_embedding : String → Embedding → Action Payload Unit
  unfolding set_model try_except
  set_cached_embedding query embedding =
      set_embedding_by (cache_model has_embedding_cache) query embedding

  -- `except EmbeddingServiceUnavailableError`
  abbrev pub embedding_or_error : Result Error Embedding → Result Error Embedding
  embedding_or_error (ok embedding) = ok embedding
  embedding_or_error (err embedding_service_unavailable) = err infrastructure_error
  embedding_or_error (err e) = err e

  unfoldable pub embed_query : String → Result Error Embedding
  embed_query query = embedding_or_error (embed_text query)

  abbrev pub respond :
      SearchableCardResult → Result Error (List String) → Result Error SearchResponse
  respond result (err e) = err e
  respond result (ok titles) =
      ok (record { matched_cards = result.matches; connected_titles = titles })

  abbrev pub with_titles : Result Error SearchableCardResult → Result Error SearchResponse
  with_titles (err e) = err e
  with_titles (ok result) = respond result (
      get_connected_titles (map (λ c. c.node_id) result.matches) (map (λ c. c.title) result.matches)
        max_connected)

  -- From the retrieval to the response
  unfoldable pub retrieve : String → Embedding → Result Error SearchResponse
  retrieve query embedding =
      with_titles (search_searchable_cards query embedding max_matched vector_candidate_pool_size)

  unfoldable pub embed_and_store : String → Action Payload Embedding
  unfolding embed_query set_cached_embedding ◌>>=◌
  embed_and_store query = lift (embed_query query) >>= λ embedding.
      (set_cached_embedding query embedding >> pure embedding)

  abbrev pub or_embed : String → Option Embedding → Action Payload Embedding
  or_embed query (some embedding) = pure embedding
  or_embed query none = embed_and_store query

  unfoldable pub search_fresh : String → Action Payload SearchResponse
  unfolding get_cached_embedding embed_and_store retrieve set_cached_response ◌>>=◌
  search_fresh query = get_cached_embedding query >>= λ cached.
      or_embed query cached >>= λ embedding. lift (retrieve query embedding) >>= λ response.
      (set_cached_response query response >> pure response)

  abbrev pub or_search : String → Option SearchResponse → Action Payload SearchResponse
  or_search query (some response) = pure response
  or_search query none = search_fresh query

  unfoldable pub search : String → Action Payload SearchResponse
  unfolding get_cached_response search_fresh ◌>>=◌
  search query = get_cached_response query >>= λ cached. or_search query cached
