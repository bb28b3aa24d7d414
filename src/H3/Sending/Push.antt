-- ===== src/H3/Sending/Push.antt =====
-- Push promises (send_push_promise of src/aioquic/h3/connection.py) and the identifiers they use.
use aioquic.Base.{
  ℕ, suc, ◌+◌, ◌<◌, Bool, true, false, not, Option, none, some, List, [], ◌∷◌, ◌++◌, append_assoc,
  length, ◌≡◌, refl, ap, sym, ◌∙◌, arith,
}
use mathlib.Core.Path.{subst}
use aioquic.Base.Exception.{
  Exception, Result, ok, assertion_error, invalid_stream_type_error, no_available_push_id_error,
}
use aioquic.Base.Run.{Run, Out, Out-then, Out-test, Out-lifted, lift, return, ◌>>◌, ◌>>=◌}
use aioquic.H3.{Headers}
use aioquic.H3.Settings.{uint_var_of, encode_frame}
use aioquic.H3.State.{
  Qpack, Quic, Call, sends_stream_data, get_next_available_stream_id, H3Connection, send_local,
  sent, send_stream_data, stream_is_request_response,
}
use aioquic.H3.Sending.{create_uni_stream, encode_headers, no_push_id, send_push_promise}

sent-calls :
    (quic : Quic) (stream_id : ℕ) (bytes : List ℕ) (end_stream : Bool)
    → (sent quic stream_id bytes end_stream).calls
      ≡ quic.calls ++ (sends_stream_data stream_id bytes end_stream ∷ [])
sent-calls quic stream_id bytes end_stream = ground arith

-- One more call.
more :
    (start said before after : List Call) (call : Call)
    → before ≡ start ++ said
    → after ≡ before ++ (call ∷ [])
    → after ≡ start ++ (said ++ (call ∷ []))
more start said before after call e f =
    f ∙ ap (λ t. t ++ (call ∷ [])) e ∙ append_assoc start said (call ∷ [])

four :
    (start first second third last : List Call) (a b c d : Call)
    → first ≡ start ++ (a ∷ [])
    → second ≡ first ++ (b ∷ [])
    → third ≡ second ++ (c ∷ [])
    → last ≡ third ++ (d ∷ [])
    → last ≡ start ++ (a ∷ b ∷ c ∷ d ∷ [])
four start first second third last a b c d e f g h =
    more start (a ∷ b ∷ c ∷ []) third last d
      (more start (a ∷ b ∷ []) second third c (more start (a ∷ []) first second b e f) g) h

-- The identifier's bytes are the same both times.
with_id :
    {id_bytes bytes frame_data headers frame : List ℕ}
    → frame_data ≡ headers
    → encode_frame 0x5 (id_bytes ++ frame_data) ≡ ok frame
    → ◌≡◌ {A = Result (List ℕ)} (ok id_bytes) (ok bytes)
    → encode_frame 0x5 (bytes ++ headers) ≡ ok frame
with_id same made e = ground (arith, same, made, e)

module _ {D E : Type 0} where
  abbrev Any : Exception → H3Connection D E → Type 0
  Any e c = Unit

  -- The push identifiers and their limit are those of `c`, and one more call was made.
  abbrev Called : H3Connection D E → ℕ → List ℕ → H3Connection D E → Type 0
  Called c stream_id bytes d =
      (d.next_push_id ≡ c.next_push_id)
      × (d.max_push_id ≡ c.max_push_id)
      × (d.quic.calls ≡ c.quic.calls ++ (sends_stream_data stream_id bytes false ∷ []))

  -- On a stream of the connection's own.
  abbrev Local : H3Connection D E → Option ℕ → List ℕ → Unit {0} → H3Connection D E → Type 0
  Local c stream_id bytes u d = (id : ℕ) × (stream_id ≡ some id) × Called c id bytes d

  send_local-Called :
      (stream_id : Option ℕ) (bytes : List ℕ) (c : H3Connection D E)
      → Out Any (Local c stream_id bytes) (send_local stream_id bytes c)
  send_local-Called none bytes c = tt
  send_local-Called (some stream_id) bytes c =
      (stream_id, refl, (refl, refl, sent-calls c.quic stream_id bytes false))

  -- The type of the new stream is sent on it.
  abbrev Opened : ℕ → H3Connection D E → ℕ → H3Connection D E → Type 0
  Opened stream_type c stream_id d =
      (bytes : List ℕ) × (uint_var_of stream_type ≡ ok bytes) × Called c stream_id bytes d

  create_uni_stream-Opened :
      (stream_type : ℕ) (c : H3Connection D E)
      → Out Any (Opened stream_type c) (create_uni_stream stream_type c)
  unfolding create_uni_stream
  create_uni_stream-Opened stream_type c =
      let stream_id = get_next_available_stream_id c.quic true in
      Out-lifted Any (Opened stream_type c) (uint_var_of stream_type) _ c (λ e. tt)
        (λ bytes e. (bytes, e, (refl, refl, sent-calls c.quic stream_id bytes false)))

  -- What is sent on the push stream.
  abbrev last_steps : ℕ → ℕ → Run (H3Connection D E) ℕ
  last_steps push_id push_stream_id = lift (uint_var_of push_id) >>= λ bytes.
      send_stream_data push_stream_id bytes false >> return push_stream_id

  below :
      (c : H3Connection D E)
      → no_push_id c ≡ false
      → (limit : ℕ) × (c.max_push_id ≡ some limit) × (c.next_push_id < limit)
  below c h = go c.max_push_id refl
    where
      go :
          (m : Option ℕ)
          → c.max_push_id ≡ m
          → (limit : ℕ) × (c.max_push_id ≡ some limit) × (c.next_push_id < limit)
      go none e = absurd (ground (arith, (rw e at h)))
      go (some n) e = (n, e, ground (arith, (rw e at h)))

module _ {D E : Type 0} (q : Qpack D E) where
  -- The identifier is below the limit and the next one is another. The calls are those for the
  -- encoder, the PUSH_PROMISE frame with the identifier and the headers, and on the new stream its
  -- type and the same identifier.
  pub record Pushed (stream_id : ℕ) (headers : Headers) (c : H3Connection D E) (push_stream_id : ℕ)
      (d : H3Connection D E) : Type 0 where
    pub below_limit : (limit : ℕ) × (c.max_push_id ≡ some limit) × (c.next_push_id < limit)
    pub at_server : c.is_client ≡ false
    pub on_request : stream_is_request_response stream_id ≡ true
    pub next_id : d.next_push_id ≡ suc c.next_push_id
    pub limit_kept : d.max_push_id ≡ c.max_push_id
    pub encoder_stream_id : ℕ
    pub for_encoder : c.local_encoder_stream_id ≡ some encoder_stream_id
    pub id_bytes : List ℕ
    pub identifier : uint_var_of c.next_push_id ≡ ok id_bytes
    pub promise : List ℕ
    pub with_headers :
        encode_frame 0x5 (id_bytes ++ (q.encode c.encoder stream_id headers).0.1) ≡ ok promise
    pub type_bytes : List ℕ
    pub stream_type : uint_var_of 0x1 ≡ ok type_bytes
    pub calls :
        d.quic.calls
        ≡ c.quic.calls
          ++ (sends_stream_data encoder_stream_id (q.encode c.encoder stream_id headers).0.0 false
              ∷ sends_stream_data stream_id promise false
              ∷ sends_stream_data push_stream_id type_bytes false
              ∷ sends_stream_data push_stream_id id_bytes false
              ∷ [])

  abbrev Encoded : ℕ → Headers → H3Connection D E → List ℕ → H3Connection D E → Type 0
  Encoded stream_id headers c frame_data d =
      (frame_data ≡ (q.encode c.encoder stream_id headers).0.1)
      × Local c c.local_encoder_stream_id (q.encode c.encoder stream_id headers).0.0 tt d

  encode_headers-Encoded :
      (stream_id : ℕ) (headers : Headers) (c : H3Connection D E)
      → Out Any (Encoded stream_id headers c) (encode_headers q stream_id headers c)
  unfolding encode_headers
  encode_headers-Encoded stream_id headers c =
      let (_, encoder) = q.encode c.encoder stream_id headers in
      let bytes = (q.encode c.encoder stream_id headers).0.0 in
      Out-then Any Any (Local c c.local_encoder_stream_id bytes) (Encoded stream_id headers c)
        (send_local c.local_encoder_stream_id bytes) _ _
        (send_local-Called c.local_encoder_stream_id bytes (record c {
          encoder = encoder;
          encoder_bytes_sent = c.encoder_bytes_sent + length bytes;
        }))
        (λ e d x. tt) (λ u d x. (refl, x))

  pushes :
      (stream_id : ℕ) (headers : Headers) (c : H3Connection D E)
      → Out Any (Pushed stream_id headers c) (send_push_promise q stream_id headers c)
  unfolding send_push_promise
  pushes stream_id headers c =
      let next = record c { next_push_id = suc c.next_push_id } in
      let P = Pushed stream_id headers c in
      Out-test Any P c.is_client assertion_error _ c tt (λ client.
        Out-test Any P (not (stream_is_request_response stream_id)) invalid_stream_type_error _ c tt
          (λ t. Out-test Any P (no_push_id c) no_available_push_id_error _ c tt (λ room.
            Out-lifted Any P (uint_var_of c.next_push_id) _ next (λ e. tt)
              (λ id_bytes k.
                Out-then Any Any (Encoded stream_id headers next) P
                  (encode_headers q stream_id headers) _ next
                  (encode_headers-Encoded stream_id headers next) (λ e d x. tt)
                  (λ frame_data d (same, (encoder, at, (x, y, z))).
                    Out-lifted Any P (encode_frame 0x5 (id_bytes ++ frame_data))
                      (λ frame.
                        send_stream_data stream_id frame false
                        >> (create_uni_stream 0x1 >>= last_steps c.next_push_id))
                      d (λ e. tt)
                      (λ frame made.
                        let told = record d { quic = sent d.quic stream_id frame false } in
                        Out-then Any Any (Opened 0x1 told) P (create_uni_stream 0x1)
                          (last_steps c.next_push_id) told (create_uni_stream-Opened 0x1 told)
                          (λ e g z. tt)
                          (λ push_stream_id g (type_bytes, kind, (x', y', z')).
                            Out-lifted Any P (uint_var_of c.next_push_id)
                              (λ bytes.
                                send_stream_data push_stream_id bytes false
                                >> return push_stream_id)
                              g (λ e. tt)
                              (λ bytes k'. record {
                                below_limit = below c room;
                                at_server = client;
                                on_request = ground (arith, t);
                                next_id = x' ∙ x;
                                limit_kept = y' ∙ y;
                                encoder_stream_id = encoder;
                                for_encoder = at;
                                id_bytes = bytes;
                                identifier = k';
                                promise = frame;
                                with_headers = with_id same made (sym k ∙ k');
                                type_bytes = type_bytes;
                                stream_type = kind;
                                calls =
                                    four c.quic.calls d.quic.calls told.quic.calls g.quic.calls _ _
                                      _ _ _ z (sent-calls d.quic _ _ _) z'
                                      (sent-calls g.quic _ _ _);
                              }))))))))

  -- A push promise that is sent takes the next identifier, which is below the limit that the client
  -- gave, at a server and for a client's request, and moves on to the one after it; the limit stays.
  -- What is sent is the encoder's bytes, the PUSH_PROMISE frame with this identifier and the headers
  -- on the stream of the request, and on the push stream its type and this identifier; nothing else
  -- is sent.
  pub send_push_promise-Pushed :
      (stream_id push_stream_id : ℕ) (headers : Headers) (c d : H3Connection D E)
      → send_push_promise q stream_id headers c ≡ (ok push_stream_id, d)
      → Pushed stream_id headers c push_stream_id d
  send_push_promise-Pushed stream_id push_stream_id headers c d e =
      subst (λ (out : Result ℕ × H3Connection D E). Out Any (Pushed stream_id headers c) out) e
        (pushes stream_id headers c)
