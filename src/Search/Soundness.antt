-- ===== src/Search/Soundness.antt =====
-- What the caches may hold, and what a search answers from them.
use hll.Prelude.{
  ℕ, ◌+◌, String, ◌≡◌, refl, sym, subst, ap, ◌∙◌, Bool, true, false, ◌&&◌, Option, none, some, List,
  [], ◌∷◌, arith, str_eq, eq_iff, find, All, if◌then◌else◌,
}
use hll.Exec.{Result, ok, err, continue, handle, pure, lift, ◌>>=◌, try_except}
use hll.Search.{
  SearchResponse, Error, Key, response_key, embedding_key, same_key, Health, answers, expired,
  fails, Redis, ResponseKeyFields, EmbeddingKeyFields, Action, Codec, Service, text_of, stored,
  some_model, decoded, read_by, get_model, write_by, set_model, search_response_cache_key,
  search_embedding_cache_key, cache_model, get_response_by, get_cached_response, set_response_by,
  set_cached_response, get_embedding_by, get_cached_embedding, set_embedding_by,
  set_cached_embedding, embed_query, retrieve, embed_and_store, or_embed, search_fresh, or_search,
  search,
}

and_left : (a b : Bool) → (a && b) ≡ true → a ≡ true
and_left a b h = ground arith

and_right : (a b : Bool) → (a && b) ≡ true → b ≡ true
and_right a b h = ground arith

some_inj : {A : Type 0} (a b : A) → some a ≡ some b → a ≡ b
some_inj a b h = ap (λ o. elim o [ none ↦ a | some x ↦ x ]) h

same_key-eq : (a b : Key) → same_key a b ≡ true → a ≡ b
same_key-eq (response_key a) (response_key b) h = ap response_key ((eq_iff a b).0 h)
same_key-eq (response_key a) (embedding_key n b) h = cc
same_key-eq (embedding_key m a) (response_key b) h = cc
same_key-eq (embedding_key m a) (embedding_key n b) h = cc (
  (eq_iff m n).0 (and_left (str_eq m n) (str_eq a b) h),
  (eq_iff a b).0 (and_right (str_eq m n) (str_eq a b) h),
)

abbrev digest_of : Key → String
digest_of (response_key d) = d
digest_of (embedding_key m d) = d

apart : {m d e : String} → embedding_key m d ≡ response_key e → ⊥
apart h = cc

module _ {Payload Embedding : Type 0} (svc : Service Payload Embedding) where
  open svc use {normalize, embedding_model, redis}

  -- The embedding of a query that is the same up to case and blanks.
  pub record EmbeddingFor (query : String) (embedding : Embedding) : Type 0 where
    pub source : String
    pub same : normalize source ≡ normalize query
    pub embedded : embed_query svc source ≡ ok embedding

  -- What the cards answer to such a query, with the embedding of such a query.
  pub record Answer (query : String) (response : SearchResponse) : Type 0 where
    pub text : String
    pub same : normalize text ≡ normalize query
    pub embedding : Embedding
    pub embedded : EmbeddingFor query embedding
    pub retrieved : retrieve svc text embedding ≡ ok response

  -- The embedding service or the cards raised it for the query itself.
  pub data Failure (query : String) (e : Error) : Type 0 where
    not_embedded : embed_query svc query ≡ err e → Failure query e
    not_retrieved :
        (embedding : Embedding)
        → EmbeddingFor query embedding
        → retrieve svc query embedding ≡ err e
        → Failure query e

  abbrev pub Explained : String → Result Error SearchResponse → Type 0
  Explained query (ok response) = Answer query response
  Explained query (err e) = Failure query e

  EmbeddingFor-same :
      (p q : String) (e : Embedding)
      → normalize p ≡ normalize q
      → EmbeddingFor p e
      → EmbeddingFor q e
  EmbeddingFor-same p q e h x = record {
    source = x.source;
    same = x.same ∙ h;
    embedded = x.embedded;
  }

  Answer-same :
      (p q : String) (r : SearchResponse) → normalize p ≡ normalize q → Answer p r → Answer q r
  Answer-same p q r h x = record {
    text = x.text;
    same = x.same ∙ h;
    embedding = x.embedding;
    embedded = EmbeddingFor-same p q x.embedding h x.embedded;
    retrieved = x.retrieved;
  }

  -- A text under the key of a response, or of an embedding, is one for each query with this key, where
  -- the service has a model.
  pub record SoundEntry (key : Key) (text : Payload) : Type 0 where
    pub response :
        (query model : String)
        → embedding_model ≡ some model
        → search_response_cache_key svc query model ≡ key
        → (r : SearchResponse) × (svc.responses.decode text ≡ ok r) × Answer query r
    pub embedding :
        (query model : String)
        → embedding_model ≡ some model
        → search_embedding_cache_key svc query model ≡ key
        → (e : Embedding) × (svc.embeddings.decode text ≡ ok e) × EmbeddingFor query e

  pub record Sound (s : Redis Payload) : Type 0 where
    pub entries : All (λ (e : Key × Payload). SoundEntry e.0 e.1) s.entries

  -- Digests tell queries apart, and what is encoded is decoded.
  pub record Reliable : Type 0 where
    pub response_apart :
        (a b : ResponseKeyFields)
        → svc.digest_response a ≡ svc.digest_response b
        → a.query ≡ b.query
    pub embedding_apart :
        (a b : EmbeddingKeyFields)
        → svc.digest_embedding a ≡ svc.digest_embedding b
        → a.query ≡ b.query
    pub responses_back : (r : SearchResponse) → svc.responses.decode (svc.responses.encode r) ≡ ok r
    pub embeddings_back : (e : Embedding) → svc.embeddings.decode (svc.embeddings.encode e) ≡ ok e

  stored-cons :
      (key k : Key) (t : Payload) (entries : List (Key × Payload))
      → stored key ((k, t) ∷ entries) ≡ (if same_key k key then some t else stored key entries)
  stored-cons key k t entries = go (same_key k key)
    where
      go :
          (b : Bool)
          → text_of
              (if b then some (k, t) else find (λ (e : Key × Payload). same_key e.0 key) entries)
            ≡ (if b then some t else stored key entries)
      go true = refl
      go false = refl

  stored-Sound :
      (key : Key) (text : Payload) (entries : List (Key × Payload))
      → stored key entries ≡ some text
      → All (λ (e : Key × Payload). SoundEntry e.0 e.1) entries
      → SoundEntry key text
  stored-Sound key text [] h all = cc
  stored-Sound key text ((k, t) ∷ entries) h all =
      go (same_key k key) refl (sym (stored-cons key k t entries) ∙ h)
        (λ e. stored-Sound key text entries e all.1)
    where
      go :
          (b : Bool)
          → same_key k key ≡ b
          → (if b then some t else stored key entries) ≡ some text
          → (stored key entries ≡ some text → SoundEntry key text)
          → SoundEntry key text
      go true e k_is rest =
          subst (λ x. SoundEntry x text) (same_key-eq k key e)
            (subst (λ x. SoundEntry k x) (some_inj t text k_is) all.0)
      go false e k_is rest = rest k_is

  -- From a sound store, a method leaves a sound one and its outcome is as `P` says.
  record Keeps {A : Type 0} (P : Result Error A → Type 0) (m : Action Payload A) : Type 0 where
    pub at : (s : Redis Payload) → Sound s → Sound (m s).1 × P (m s).0

  Keeps-bind :
      {A B : Type 0} (P : Result Error A → Type 0) (Q : Result Error B → Type 0)
      (m : Action Payload A) (f : A → Action Payload B)
      → Keeps P m
      → ((a : A) → P (ok a) → Keeps Q (f a))
      → ((e : Error) → P (err e) → Q (err e))
      → Keeps Q (m >>= f)
  unfolding ◌>>=◌
  Keeps-bind {A} {B} P Q m f h k raised = record { at = λ s sound. go (m s) (h.at s sound) }
    where
      go :
          (r : Result Error A × Redis Payload)
          → Sound r.1 × P r.0
          → Sound (continue r.0 f r.1).1 × Q (continue r.0 f r.1).0
      go (ok a, t) p = (k a p.1).at t p.0
      go (err e, t) p = (p.0, raised e p.1)

  Keeps-lift :
      {A : Type 0} (P : Result Error A → Type 0) (r : Result Error A) → P r → Keeps P (lift r)
  Keeps-lift P r h = record { at = λ s sound. (sound, h) }

  model_there : (b : Bool) (n : String) → cache_model svc b ≡ some n → embedding_model ≡ some n
  model_there true n h = h
  model_there false n h = cc

  -- What a read of a cache may return: nothing, or what is right.
  abbrev Right : {A : Type 0} → (A → Type 0) → Result Error (Option A) → Type 0
  Right P (ok none) = Unit
  Right P (ok (some a)) = P a
  Right P (err e) = ⊥

  counted : (s : Redis Payload) (n : ℕ) → Sound s → Sound (record s { operations = n })
  counted s n h = record { entries = h.entries }

  -- A read whose errors are caught, of a key under which every text is right.
  read-Right :
      {A : Type 0} (P : A → Type 0) (codec : Codec Payload A) (key : Key)
      → ((text : Payload) → SoundEntry key text → (a : A) × (codec.decode text ≡ ok a) × P a)
      → Keeps (Right P) (try_except (get_model redis codec key) (λ e. pure none))
  unfolding get_model try_except
  read-Right {A} P codec key good = record {
    at = λ s sound.
        let t = record s { operations = s.operations + 1 } in
        go t (counted s (s.operations + 1) sound) (redis s.operations);
  }
    where
      caught : Result Error (Option A) → Redis Payload → Result Error (Option A) × Redis Payload
      caught r t = handle r (λ e. pure none) t

      text_case :
          (t : Redis Payload)
          → Sound t
          → (o : Option Payload) → stored key t.entries ≡ o
          → Sound (caught (decoded codec o) t).1 × Right P (caught (decoded codec o) t).0
      text_case t sound none e = (sound, tt)
      text_case t sound (some text) e =
          let g = good text (stored-Sound key text t.entries e sound.entries) in
          subst (λ r. Sound (caught (some_model r) t).1 × Right P (caught (some_model r) t).0)
            (sym g.1) (sound, g.2)

      go :
          (t : Redis Payload)
          → Sound t
          → (h : Health)
          → Sound (caught (read_by h codec key t.entries) t).1
            × Right P (caught (read_by h codec key t.entries) t).0
      go t sound answers = text_case t sound (stored key t.entries) refl
      go t sound expired = (sound, tt)
      go t sound fails = (sound, tt)

  write_kept :
      {A : Type 0} (codec : Codec Payload A) (key : Key) (a : A)
      → SoundEntry key (codec.encode a)
      → Keeps (λ r. r ≡ ok tt) (try_except (set_model redis codec key a) (λ e. pure tt))
  unfolding set_model try_except
  write_kept {A} codec key a good = record {
    at = λ s sound.
        go (record s { operations = s.operations + 1 }) (counted s (s.operations + 1) sound)
          (redis s.operations);
  }
    where
      caught : Result Error Unit × Redis Payload → Result Error Unit × Redis Payload
      caught r = handle r.0 (λ e. pure tt) r.1

      go :
          (t : Redis Payload)
          → Sound t
          → (h : Health)
          → Sound (caught (write_by h codec key a t)).1
            × ((caught (write_by h codec key a t)).0 ≡ ok tt)
      go t sound answers = (record { entries = (good, sound.entries) }, refl)
      go t sound expired = (sound, refl)
      go t sound fails = (sound, refl)

  module _ (reliable : Reliable) where
    same_query_response :
        (p q m n : String)
        → search_response_cache_key svc p m ≡ search_response_cache_key svc q n
        → normalize p ≡ normalize q
    same_query_response p q m n h = reliable.response_apart _ _ (ap digest_of h)

    same_query_embedding :
        (p q m n : String)
        → search_embedding_cache_key svc p m ≡ search_embedding_cache_key svc q n
        → normalize p ≡ normalize q
    same_query_embedding p q m n h = reliable.embedding_apart _ _ (ap digest_of h)

    response_entry :
        (query model : String) (r : SearchResponse)
        → Answer query r
        → SoundEntry (search_response_cache_key svc query model) (svc.responses.encode r)
    response_entry query model r h = record {
      response = λ q n there same. (
        r,
        reliable.responses_back r,
        Answer-same query q r (sym (same_query_response q query n model same)) h,
      );
      embedding = λ q n there same. absurd (apart same);
    }

    embedding_entry :
        (query model : String) (e : Embedding)
        → EmbeddingFor query e
        → SoundEntry (search_embedding_cache_key svc query model) (svc.embeddings.encode e)
    embedding_entry query model e h = record {
      response = λ q n there same. absurd (apart (sym same));
      embedding = λ q n there same. (
        e,
        reliable.embeddings_back e,
        EmbeddingFor-same query q e (sym (same_query_embedding q query n model same)) h,
      );
    }

    get_response-Right :
        (query : String) → Keeps (Right (Answer query)) (get_cached_response svc query)
    unfolding get_cached_response
    get_response-Right query =
        go (cache_model svc svc.has_response_cache) (model_there svc.has_response_cache)
      where
        go :
            (m : Option String)
            → ((n : String) → m ≡ some n → embedding_model ≡ some n)
            → Keeps (Right (Answer query)) (get_response_by svc m query)
        go none h = Keeps-lift (Right (Answer query)) (ok none) tt
        go (some n) h =
            read-Right (Answer query) svc.responses (search_response_cache_key svc query n)
              (λ text good. good.response query n (h n refl) refl)

    get_embedding-Right :
        (query : String) → Keeps (Right (EmbeddingFor query)) (get_cached_embedding svc query)
    unfolding get_cached_embedding
    get_embedding-Right query =
        go (cache_model svc svc.has_embedding_cache) (model_there svc.has_embedding_cache)
      where
        go :
            (m : Option String)
            → ((n : String) → m ≡ some n → embedding_model ≡ some n)
            → Keeps (Right (EmbeddingFor query)) (get_embedding_by svc m query)
        go none h = Keeps-lift (Right (EmbeddingFor query)) (ok none) tt
        go (some n) h =
            read-Right (EmbeddingFor query) svc.embeddings (search_embedding_cache_key svc query n)
              (λ text good. good.embedding query n (h n refl) refl)

    set_response_kept :
        (query : String) (r : SearchResponse)
        → Answer query r
        → Keeps (λ x. x ≡ ok tt) (set_cached_response svc query r)
    unfolding set_cached_response
    set_response_kept query r h = go (cache_model svc svc.has_response_cache)
      where
        go : (m : Option String) → Keeps (λ x. x ≡ ok tt) (set_response_by svc m query r)
        go none = Keeps-lift (λ x. x ≡ ok tt) (ok tt) refl
        go (some n) =
            write_kept svc.responses (search_response_cache_key svc query n) r
              (response_entry query n r h)

    set_embedding_kept :
        (query : String) (e : Embedding)
        → EmbeddingFor query e
        → Keeps (λ x. x ≡ ok tt) (set_cached_embedding svc query e)
    unfolding set_cached_embedding
    set_embedding_kept query e h = go (cache_model svc svc.has_embedding_cache)
      where
        go : (m : Option String) → Keeps (λ x. x ≡ ok tt) (set_embedding_by svc m query e)
        go none = Keeps-lift (λ x. x ≡ ok tt) (ok tt) refl
        go (some n) =
            write_kept svc.embeddings (search_embedding_cache_key svc query n) e
              (embedding_entry query n e h)

    -- An embedding for the query, or the error of the embedding service for it.
    Embedded : String → Result Error Embedding → Type 0
    Embedded query (ok e) = EmbeddingFor query e
    Embedded query (err x) = embed_query svc query ≡ err x

    embed_and_store_kept : (query : String) → Keeps (Embedded query) (embed_and_store svc query)
    unfolding embed_and_store Embedded
    embed_and_store_kept query =
        Keeps-bind (λ r. embed_query svc query ≡ r) (Embedded query) (lift (embed_query svc query))
          _ (Keeps-lift (λ r. embed_query svc query ≡ r) (embed_query svc query) refl)
          (λ e is.
            let found : EmbeddingFor query e = record {
              source = query;
              same = refl;
              embedded = is;
            } in
            Keeps-bind (λ x. x ≡ ok tt) (Embedded query) (set_cached_embedding svc query e) _
              (set_embedding_kept query e found) (λ u h. Keeps-lift (Embedded query) (ok e) found)
              (λ x h. cc))
          (λ x h. h)

    or_embed_kept :
        (query : String) (o : Option Embedding)
        → Right (EmbeddingFor query) (ok o)
        → Keeps (Embedded query) (or_embed svc query o)
    unfolding Embedded
    or_embed_kept query none h = embed_and_store_kept query
    or_embed_kept query (some e) h = Keeps-lift (Embedded query) (ok e) h

    retrieved-Explained :
        (query : String) (e : Embedding) (h : EmbeddingFor query e)
        (r : Result Error SearchResponse)
        → retrieve svc query e ≡ r
        → Explained query r
    retrieved-Explained query e h (ok r) is = record {
      text = query;
      same = refl;
      embedding = e;
      embedded = h;
      retrieved = is;
    }
    retrieved-Explained query e h (err x) is = not_retrieved e h is

    search_fresh_kept : (query : String) → Keeps (Explained query) (search_fresh svc query)
    unfolding search_fresh Embedded
    search_fresh_kept query =
        Keeps-bind (Right (EmbeddingFor query)) (Explained query) (get_cached_embedding svc query) _
          (get_embedding-Right query)
          (λ cached good.
            Keeps-bind (Embedded query) (Explained query) (or_embed svc query cached) _
              (or_embed_kept query cached good)
              (λ e found.
                Keeps-bind (Explained query) (Explained query) (lift (retrieve svc query e)) _
                  (Keeps-lift (Explained query) (retrieve svc query e)
                    (retrieved-Explained query e found (retrieve svc query e) refl))
                  (λ r answer.
                    Keeps-bind (λ x. x ≡ ok tt) (Explained query) (set_cached_response svc query r)
                      _ (set_response_kept query r answer)
                      (λ u h. Keeps-lift (Explained query) (ok r) answer) (λ x h. cc))
                  (λ x h. h))
              (λ x h. not_embedded h))
          (λ x h. absurd h)

    or_search_kept :
        (query : String) (o : Option SearchResponse)
        → Right (Answer query) (ok o)
        → Keeps (Explained query) (or_search svc query o)
    or_search_kept query none h = search_fresh_kept query
    or_search_kept query (some r) h = Keeps-lift (Explained query) (ok r) h

    -- Where digests tell queries apart and what is encoded is decoded: from a store whose entries are
    -- right, whatever Redis does, a search leaves such a store. It returns what the cards answer to a query
    -- that is the same up to case and blanks, with the embedding of such a query; or it raises what the
    -- embedding service or the cards raised for the query. No failure of the cache is raised.
    pub search-Sound :
        (query : String) (s : Redis Payload)
        → Sound s
        → Sound (search svc query s).1 × Explained query (search svc query s).0
    unfolding search
    search-Sound query s sound =
        (Keeps-bind (Right (Answer query)) (Explained query) (get_cached_response svc query)
            (or_search svc query) (get_response-Right query) (or_search_kept query)
            (λ x h. absurd h)).at
          s sound
