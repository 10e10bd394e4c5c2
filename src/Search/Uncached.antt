-- ===== src/Search/Uncached.antt =====
-- A search without its caches.
use hll.Prelude.{ℕ, String, ◌≡◌, refl, ◌∙◌, ap, Option, none, some}
use hll.Exec.{Result, ok, err, continue, pure, lift, ◌>>=◌, ◌>>◌, try_except}
use hll.Exec.Steps.{after_ok}
use hll.Search.{
  SearchResponse, Error, Key, fails, Redis, Action, Codec, Service, get_model, set_model,
  search_response_cache_key, search_embedding_cache_key, cache_model, get_response_by,
  get_cached_response, set_response_by, set_cached_response, get_embedding_by, get_cached_embedding,
  set_embedding_by, set_cached_embedding, embed_query, retrieve, embed_and_store, or_embed,
  search_fresh, or_search, search,
}

module _ {Payload Embedding : Type 0} (svc : Service Payload Embedding) where
  -- The embedding service, then the cards.
  abbrev pub then_retrieve : String → Result Error Embedding → Result Error SearchResponse
  then_retrieve query (ok e) = retrieve svc query e
  then_retrieve query (err x) = err x

  abbrev pub uncached : String → Result Error SearchResponse
  uncached query = then_retrieve query (embed_query svc query)

  module _ (down : (n : ℕ) → svc.redis n ≡ fails) where
    reads_none :
        {A : Type 0} (codec : Codec Payload A) (key : Key) (s : Redis Payload)
        → (try_except (get_model svc.redis codec key) (λ e. pure none) s).0 ≡ ok none
    unfolding try_except get_model
    reads_none codec key s = rw (down s.operations) refl

    writes_ok :
        {A : Type 0} (codec : Codec Payload A) (key : Key) (a : A) (s : Redis Payload)
        → (try_except (set_model svc.redis codec key a) (λ e. pure tt) s).0 ≡ ok tt
    unfolding try_except set_model
    writes_ok codec key a s = rw (down s.operations) refl

    no_response :
        (query : String) (s : Redis Payload) → (get_cached_response svc query s).0 ≡ ok none
    unfolding get_cached_response
    no_response query s = go (cache_model svc svc.has_response_cache)
      where
        go : (m : Option String) → (get_response_by svc m query s).0 ≡ ok none
        go none = refl
        go (some n) = reads_none svc.responses (search_response_cache_key svc query n) s

    no_embedding :
        (query : String) (s : Redis Payload) → (get_cached_embedding svc query s).0 ≡ ok none
    unfolding get_cached_embedding
    no_embedding query s = go (cache_model svc svc.has_embedding_cache)
      where
        go : (m : Option String) → (get_embedding_by svc m query s).0 ≡ ok none
        go none = refl
        go (some n) = reads_none svc.embeddings (search_embedding_cache_key svc query n) s

    response_set :
        (query : String) (r : SearchResponse) (s : Redis Payload)
        → (set_cached_response svc query r s).0 ≡ ok tt
    unfolding set_cached_response
    response_set query r s = go (cache_model svc svc.has_response_cache)
      where
        go : (m : Option String) → (set_response_by svc m query r s).0 ≡ ok tt
        go none = refl
        go (some n) = writes_ok svc.responses (search_response_cache_key svc query n) r s

    embedding_set :
        (query : String) (e : Embedding) (s : Redis Payload)
        → (set_cached_embedding svc query e s).0 ≡ ok tt
    unfolding set_cached_embedding
    embedding_set query e s = go (cache_model svc svc.has_embedding_cache)
      where
        go : (m : Option String) → (set_embedding_by svc m query e s).0 ≡ ok tt
        go none = refl
        go (some n) = writes_ok svc.embeddings (search_embedding_cache_key svc query n) e s

    embedded_as :
        (query : String) (s : Redis Payload)
        → (embed_and_store svc query s).0 ≡ embed_query svc query
    unfolding embed_and_store ◌>>=◌
    embedded_as query s = go (embed_query svc query)
      where
        go :
            (r : Result Error Embedding)
            → (continue r (λ e. set_cached_embedding svc query e >> pure e) s).0 ≡ r
        go (err x) = refl
        go (ok e) = rw (embedding_set query e s) refl

    finish : String → Embedding → Action Payload SearchResponse
    finish query e =
        lift (retrieve svc query e) >>= λ r. (set_cached_response svc query r >> pure r)

    finished :
        (query : String) (e : Embedding) (s : Redis Payload)
        → (finish query e s).0 ≡ retrieve svc query e
    unfolding finish ◌>>=◌
    finished query e s = go (retrieve svc query e)
      where
        go :
            (r : Result Error SearchResponse)
            → (continue r (λ x. set_cached_response svc query x >> pure x) s).0 ≡ r
        go (err x) = refl
        go (ok x) = rw (response_set query x s) refl

    fresh_as : (query : String) (s : Redis Payload) → (search_fresh svc query s).0 ≡ uncached query
    unfolding search_fresh finish
    fresh_as query s =
        let t = (get_cached_embedding svc query s).1 in
        rw
          (after_ok (get_cached_embedding svc query)
            (λ cached. or_embed svc query cached >>= finish query) s none (no_embedding query s))
          (go (embed_and_store svc query t) (embed_query svc query) (embedded_as query t))
      where
        go :
            (x : Result Error Embedding × Redis Payload) (r : Result Error Embedding)
            → x.0 ≡ r
            → (continue x.0 (finish query) x.1).0 ≡ then_retrieve query r
        go (ok e, u) (ok f) h = finished query e u ∙ ap (then_retrieve query) h
        go (err y, u) (err z) h = ap (then_retrieve query) h
        go (ok e, u) (err z) h = cc
        go (err y, u) (ok f) h = cc

    -- Where every operation of Redis fails, a search returns or raises what it does without a cache: the
    -- outcome of the embedding service and then of the cards.
    pub search-uncached :
        (query : String) (s : Redis Payload) → (search svc query s).0 ≡ uncached query
    unfolding search
    search-uncached query s =
        rw
          (after_ok (get_cached_response svc query) (or_search svc query) s none
            (no_response query s))
          (fresh_as query (get_cached_response svc query s).1)
