-- ===== src/Kv/Iteration/Delivery.antt =====
-- What an iterator over a stream delivers to its consumer, and when it ends.
use mathlib.Core.List.{append-nil, append_assoc}
use regatta_go.Prelude.{
  all, ℕ, zero, suc, ◌<◌, ◌≡◌, refl, ap, ◌∙◌, sym, Bool, true, false, not, ◌&&◌, Option, none, some,
  List, [], ◌∷◌, ◌++◌, length, if◌then◌else◌, inl, inr, Bool-cases, arith,
}
use regatta_go.Go.{ok}
use regatta_go.Go.Run.{Run, pure, >>=-known}
use regatta_go.Env.{Env, Reply, resp, fail}
use regatta_go.Proto.{RangeResponse}
use regatta_go.Responses.{GetResponse, get_of}
use regatta_go.Kv.Iteration.{round, iterate}

-- The arguments of `yield`.
abbrev pub Pair : Env → Type 0
Pair env = Option GetResponse × Option env.Err

-- The pair that a reply becomes, and whether the reply ends the stream.
abbrev pub given : (env : Env) → Reply env.Err RangeResponse → Pair env
given env (resp r) = (some (get_of r), none)
given env (fail e) = (none, some e)

abbrev pub goes_on : (env : Env) → Reply env.Err RangeResponse → Bool
goes_on env (resp r) = true
goes_on env (fail e) = not (env.is_eof e)

-- What a consumer that decides by `wants` is given of these replies.
abbrev pub delivered :
    (env : Env) → (Pair env → Bool) → List (Reply env.Err RangeResponse) → List (Pair env)
delivered env wants [] = []
delivered env wants (r ∷ rs) =
    let rest = delivered env wants rs in given env r ∷ (if wants (given env r) then rest else [])

-- `pending` lists the replies that the stream has yet to give, and `seen` the pairs that the
-- consumer was given, which goes on as `wants` says.
module _ (env : Env) (recv : Run env.World (Reply env.Err RangeResponse))
    (yield : Option GetResponse → Option env.Err → Run env.World Bool)
    (pending : env.World → List (Reply env.Err RangeResponse)) (seen : env.World → List (Pair env))
    (wants : Pair env → Bool)
    (receives : (w : env.World) (r : Reply env.Err RangeResponse)
        (rs : List (Reply env.Err RangeResponse))
      → pending w ≡ r ∷ rs
      → (w' : env.World) × (recv w ≡ (ok r, w')) × (pending w' ≡ rs) × (seen w' ≡ seen w))
    (yields : (p : Pair env) (w : env.World)
      → (w' : env.World) × (yield p.0 p.1 w ≡ (ok (wants p), w'))
        × (pending w' ≡ pending w)
        × (seen w' ≡ seen w ++ p ∷ [])) where
  loop : ℕ → Run env.World Bool
  loop n = iterate env recv yield n

  abbrev Ended : ℕ → env.World → List (Pair env) → Type 0
  Ended n w ps = (w' : env.World) × (loop n w ≡ (ok true, w')) × (seen w' ≡ seen w ++ ps)

  -- A round that does not meet the end of the stream yields its pair.
  round-given :
      (r : Reply env.Err RangeResponse)
      → goes_on env r ≡ true
      → round env recv yield r ≡ yield (given env r).0 (given env r).1
  unfolding round
  round-given (resp r) h = refl
  round-given (fail e) h = by_test (env.is_eof e) h
    where
      by_test :
          (b : Bool)
          → not b ≡ true
          → (elim b [ true ↦ pure false | false ↦ yield none (some e) ]) ≡ yield none (some e)
      by_test true t = cc
      by_test false t = refl

  round-eof :
      (e : env.Err) (w : env.World)
      → env.is_eof e ≡ true
      → round env recv yield (fail e) w ≡ (ok false, w)
  unfolding round
  round-eof e w eof =
      ap
        (λ b.
          (elim b as (λ x. Run env.World Bool) [ true ↦ pure false | false ↦ yield none (some e) ])
            w)
        eof

  -- One round of the loop, whose reply and whose decision are known.
  loop-round :
      (n : ℕ) (w w' w'' : env.World) (r : Reply env.Err RangeResponse) (more : Bool)
      → recv w ≡ (ok r, w')
      → round env recv yield r w' ≡ (ok more, w'')
      → loop (suc n) w ≡ (if more then loop n w'' else (ok true, w''))
  unfolding loop iterate
  loop-round n w w' w'' r true got done =
      >>=-known recv _ w got ∙ >>=-known (round env recv yield r) _ w' done
  loop-round n w w' w'' r false got done =
      >>=-known recv _ w got ∙ >>=-known (round env recv yield r) _ w' done

  loop-eof :
      (n : ℕ) (w : env.World) (e : env.Err) (rest : List (Reply env.Err RangeResponse))
      → pending w ≡ fail e ∷ rest
      → env.is_eof e ≡ true
      → Ended (suc n) w []
  loop-eof n w e rest p eof =
      let (w', got, _, same) = receives w (fail e) rest p in
      (
        w',
        loop-round n w w' w' (fail e) false got (round-eof e w' eof),
        same ∙ sym (append-nil (seen w)),
      )

  and-left : (a b : Bool) → (a && b) ≡ true → a ≡ true
  and-left a b h = ground arith

  and-right : (a b : Bool) → (a && b) ≡ true → b ≡ true
  and-right a b h = ground arith

  -- The rest of a run, after a round that yielded.
  decided :
      (n : ℕ) (r : Reply env.Err RangeResponse) (rs : List (Reply env.Err RangeResponse))
      (w w' w'' : env.World)
      → recv w ≡ (ok r, w')
      → round env recv yield r w' ≡ (ok (wants (given env r)), w'')
      → seen w'' ≡ seen w ++ given env r ∷ []
      → Ended n w'' (delivered env wants rs)
      → Ended (suc n) w (delivered env wants (r ∷ rs))
  decided n r rs w w' w'' got done noted (v, ran, shown) = elim (Bool-cases (wants (given env r))) [
    | inl go ↦ (
      v,
      loop-round n w w' w'' r true got (rw go at done) ∙ ran,
      rw go (
          shown
          ∙ (ap (λ x. x ++ delivered env wants rs) noted
              ∙ append_assoc (seen w) (given env r ∷ []) (delivered env wants rs))),
    )
    | inr stop ↦ (w'', loop-round n w w' w'' r false got (rw stop at done), rw stop noted)
  ]

  loop-delivers :
      (n : ℕ) (rs rest : List (Reply env.Err RangeResponse)) (e : env.Err) (w : env.World)
      → pending w ≡ rs ++ fail e ∷ rest
      → all (goes_on env) rs ≡ true
      → env.is_eof e ≡ true
      → length rs < n
      → Ended n w (delivered env wants rs)
  loop-delivers zero rs rest e w p h eof lt = absurd (omega arith)
  loop-delivers (suc n) [] rest e w p h eof lt = loop-eof n w e rest p eof
  loop-delivers (suc n) (r ∷ rs) rest e w p h eof lt =
      let (w', got, left, same) = receives w r (rs ++ fail e ∷ rest) p in
      let (w'', gave, left', noted) = yields (given env r) w' in
      decided n r rs w w' w'' got (ap (λ f. f w') (round-given r (and-left _ _ h)) ∙ gave)
        (noted ∙ ap (λ x. x ++ given env r ∷ []) same)
        (loop-delivers n rs rest e w'' (left' ∙ left) (and-right _ _ h) eof (omega arith))

  -- Where `Recv` takes the replies of a stream one by one and the consumer returns from each pair it is
  -- given, and the stream's replies are some that do not end it and then the end, more rounds than the
  -- former are enough for the loop to be left, and the consumer is given exactly one pair for each reply,
  -- in order, up to the first at which it wants no more: a response, or an error.
  pub iterate-delivers :
      (n : ℕ) (rs rest : List (Reply env.Err RangeResponse)) (e : env.Err) (w : env.World)
      → pending w ≡ rs ++ fail e ∷ rest
      → all (goes_on env) rs ≡ true
      → env.is_eof e ≡ true
      → length rs < n
      → (w' : env.World) × (iterate env recv yield n w ≡ (ok true, w'))
        × (seen w' ≡ seen w ++ delivered env wants rs)
  iterate-delivers n rs rest e w p h eof lt = unfold loop in loop-delivers n rs rest e w p h eof lt

-- A stream that is broken gives the same error at each `Recv`.
module _ (env : Env) (recv : Run env.World (Reply env.Err RangeResponse))
    (yield : Option GetResponse → Option env.Err → Run env.World Bool) (e : env.Err)
    (broken : (w : env.World) → (w' : env.World) × (recv w ≡ (ok (fail e), w')))
    (wants_more : (w : env.World)
      → (w' : env.World) × (yield none (some e) w ≡ (ok true, w'))) where
  round-error :
      env.is_eof e ≡ false
      → (w : env.World) → round env recv yield (fail e) w ≡ yield none (some e) w
  unfolding round
  round-error no_eof w =
      ap
        (λ b.
          (elim b as (λ x. Run env.World Bool) [ true ↦ pure false | false ↦ yield none (some e) ])
            w)
        no_eof

  -- If a stream gives the same error at each `Recv`, not the end, and the consumer wants more after
  -- it, no number of rounds is enough for the loop to be left.
  pub iterate-broken :
      env.is_eof e ≡ false
      → (n : ℕ) (w : env.World) → (w' : env.World) × (iterate env recv yield n w ≡ (ok false, w'))
  unfolding iterate
  iterate-broken no_eof zero w = (w, refl)
  iterate-broken no_eof (suc n) w =
      let (v, got) = broken w in
      let (u, gave) = wants_more v in
      let (w', ran) = iterate-broken no_eof n u in
      (
        w',
        >>=-known recv _ w got
            ∙ >>=-known (round env recv yield (fail e)) _ v (round-error no_eof v ∙ gave)
            ∙ ran,
      )
