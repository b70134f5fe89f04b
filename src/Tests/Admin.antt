-- ===== src/Tests/Admin.antt =====
-- The cluster client at concrete inputs.
use regatta_go.Prelude.{ℕ, ◌≡◌, refl, Option, none, some, get_or, List, [], ◌∷◌, ◌++◌}
use regatta_go.Go.{ok, codes}
use regatta_go.Env.{Env, resp, fail}
use regatta_go.Cluster.{ClusterClient, new_cluster, status}
use regatta_go.Cluster.Status.{status-own}
use regatta_go.Tests.Services.{env_over}

-- The world lists the connections that were asked and those that were closed. A connection is a
-- number, which the server behind it gives as its identity; each endpoint has its own.
abbrev closing : Env
closing = env_over (List ℕ × List ℕ)

abbrev server : ℕ → ClusterClient closing ℕ
server n = record {
  member_list = λ ctx req opts w. (ok (fail 0), w);
  status = λ ctx req opts w. (
    ok (
        resp (record {
          id = n ∷ [];
          version = codes "0.5";
          info = [];
          tables = [];
          config = none;
          errors = [];
        })),
    (w.0 ++ n ∷ [], w.1),
  );
}

-- The endpoint "b" leads to the connection 98, and the client has the connection 1.
status-own_example :
    status closing ℕ
      (λ c. c)
      (new_cluster closing ℕ ℕ server
        (λ ep w. (ok (resp (get_or ep 0 0)), w))
        (λ c w. (w.0, w.1 ++ c ∷ []))
        (λ ep e. e)
        1
        [])
      tt
      (codes "b")
      ([], [])
    ≡ (
      ok (
        some (record {
          id = 1 ∷ [];
          version = codes "0.5";
          info = [];
          tables = [];
          errors = [];
          config = none;
        }),
        none,
      ),
      (1 ∷ [], 98 ∷ []),
    )
status-own_example =
    status-own closing ℕ (Option ℕ) (λ c. c) ℕ server (λ ep w. (ok (resp (get_or ep 0 0)), w))
      (λ c w. (w.0, w.1 ++ c ∷ [])) (λ ep e. e) 1 [] tt (codes "b") 98
      (resp (record {
        id = 1 ∷ [];
        version = codes "0.5";
        info = [];
        tables = [];
        config = none;
        errors = [];
      }))
      ([], []) ([], []) (1 ∷ [], []) refl refl
