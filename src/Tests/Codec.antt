-- ===== src/Tests/Codec.antt =====
-- Keys and an encoding of bodies for the tests: a sealed text carries its context in front.
use al_ur_messenger.Prelude.{
  ℕ, zero, suc, ◌≡◌, refl, ap, true, ◌&&◌, Option, some, none, [], ◌∷◌, ◌++◌, ◌==◌, length,
  if◌then◌else◌, arith,
}
use al_ur_messenger.Text.{Text}
use al_ur_messenger.Result.{Result, ok, err, crypto}
use al_ur_messenger.Store.{Sealed}
use al_ur_messenger.Message.{Body, Canonical, Forward, Outside}
use al_ur_messenger.Message.Contents.{IsFaithful}

abbrev Parse : Type 0 → Type 0
Parse A = A × Text

-- A text behind its length.
abbrev put : Text → Text → Text
put t rest = length t ∷ t ++ rest

abbrev split : ℕ → Text → Parse Text
split zero t = ([], t)
split (suc n) [] = ([], [])
split (suc n) (x ∷ t) = let (a, b) = split n t in (x ∷ a, b)

abbrev take_text : Text → Parse Text
take_text [] = ([], [])
take_text (n ∷ t) = split n t

abbrev put_option : Option Text → Text → Text
put_option none rest = 0 ∷ rest
put_option (some t) rest = 1 ∷ put t rest

abbrev take_option : Text → Parse (Option Text)
take_option [] = (none, [])
take_option (zero ∷ t) = (none, t)
take_option (suc n ∷ t) = let (a, b) = take_text t in (some a, b)

abbrev put_forward : Option Forward → Text
put_forward none = []
put_forward (some f) = f.message_id ∷ f.original_sender.id ∷ f.original_sender.display_name

abbrev take_forward : Text → Option Forward
take_forward (m ∷ s ∷ t) =
    some (record { message_id = m; original_sender = record { id = s; display_name = t } })
take_forward t = none

abbrev encode : Body → Text
encode b =
    put b.content.text (put b.content.caption (put_option b.metadata (put_forward b.forward)))

abbrev decode : Text → Option Body
decode t =
    let (text, t1) = take_text t in
    let (caption, t2) = take_text t1 in
    let (metadata, t3) = take_option t2 in
    some (record {
      content = record { text = text; caption = caption };
      metadata = metadata;
      forward = take_forward t3;
    })

split-append : (t r : Text) → split (length t) (t ++ r) ≡ (t, r)
split-append [] r = refl
split-append (x ∷ t) r = ap (λ p. (x ∷ p.0, p.1)) (split-append t r)

take_option-put : (o : Option Text) (r : Text) → take_option (put_option o r) ≡ (o, r)
take_option-put none r = refl
take_option-put (some t) r = ap (λ p. (some p.0, p.1)) (split-append t r)

take_forward-put : (f : Option Forward) → take_forward (put_forward f) ≡ f
take_forward-put none = refl
take_forward-put (some f) = refl

decode-encode : (b : Body) → decode (encode b) ≡ some b
decode-encode b =
    rw
      (
        split-append b.content.text
            (put b.content.caption (put_option b.metadata (put_forward b.forward))),
        split-append b.content.caption (put_option b.metadata (put_forward b.forward)),
        take_option-put b.metadata (put_forward b.forward),
        take_forward-put b.forward,
      )
      refl

abbrev seal : ℕ → ℕ → ℕ → ℕ → Text → Result Sealed
seal seed project conversation id plain = ok (record {
  ciphertext = project ∷ conversation ∷ id ∷ plain;
  nonce = seed ∷ [];
  key_version = 1 ∷ [];
  payload_version = 1;
})

abbrev open_text : ℕ → ℕ → ℕ → Text → Result Text
open_text project conversation id (p ∷ c ∷ i ∷ plain) =
    if p == project && c == conversation && i == id then ok plain else err crypto
open_text project conversation id t = err crypto

abbrev print : Canonical → Text
print (Canonical.plain_form c id t content metadata reply files) = 0 ∷ c ∷ id ∷ content.text
print (Canonical.forward_form c id source) = 1 ∷ c ∷ id ∷ source ∷ []

abbrev pub outside : Outside
outside = record {
  crypto = record {
    seal = seal;
    open_sealed = λ project conversation id s. open_text project conversation id s.ciphertext;
    index = λ project text. ok (1 ∷ [], text ∷ []);
    queries = λ project text. ok ((1 ∷ [], text ∷ []) ∷ []);
    fingerprint_version = 1 ∷ [];
    fingerprint = λ project version c. ok (print c);
  };
  marshal = λ b. some (encode b);
  decode = decode;
  words = λ text. text ∷ [];
  is_reaction_text = λ v. true;
  reaction_emoji = λ v. some v;
}

same : (n : ℕ) → (n == n) ≡ true
same n = ground arith

pub outside-IsFaithful : IsFaithful outside
outside-IsFaithful = record {
  opens = λ seed project conversation id plain s e.
      rw (← ciphertexts _ s e) (rw (same project, same conversation, same id) refl);
  decodes = λ b plain utf8 e. rw (← texts _ plain e) (decode-encode b);
}
  where
    ciphertexts : (x y : Sealed) → ok x ≡ ok y → x ≡ y
    ciphertexts x y e = cc

    texts : (x y : Text) → some x ≡ some y → x ≡ y
    texts x y e = cc
