-- ===== src/Services/LifeTests.antt =====
-- The making and the closing of a client above the mock backend.
use resilix.Prelude.{ℕ, refl, Option, none, [], ◌∷◌}
use resilix.Prelude.Int.{ℤ, pos}
use resilix.Errors.{Error}
use resilix.Breaker
use resilix.Breaker.{closed}
use resilix.Options.{normalize, fill, validate}
use resilix.Options.Tests.{given, tenths}
use resilix.Mock.{Mock}
use resilix.Services.{Session}
use resilix.Services.Lifecycle.{
  Parts, Given, close, assemble, new_client, apply_plugins, plugged_client, normalized_client,
}
use resilix.Services.Closing.{Closed, close-refuses}
use resilix.Services.Making.{IsReady, new_client-IsReady}
use resilix.Services.Tests.{store, session, start}

close-refuses_example : Closed (close session start).1
close-refuses_example = close-refuses session start

abbrev pub parts : Parts Mock ℕ ℤ
parts = record {
  begin = λ o op w. w;
  finish = λ o e w. w;
  gate = λ limit. record { acquire = λ op w. (none, w); release = λ w. w };
  backoff = λ base longest multiplier jitter n w. (base, w);
  driver = λ o. store;
  now = λ m. pos 7;
  wait = λ d w. (none, w);
}

abbrev chosen : Given Mock ℕ ℤ
chosen = record {
  options = given;
  before_execute = [];
  after_execute = [];
  middlewares = [];
  classifier = none;
  rate_limiter = none;
  backend = none;
}

-- A plugin that turns the client into one of a cluster.
abbrev to_cluster : Given Mock ℕ ℤ → Option Error × Given Mock ℕ ℤ
to_cluster g = (none, record g { options = record g.options { mode = "cluster" } })

abbrev clustered : Session Mock × Breaker.Breaker
clustered =
    assemble parts tenths 1 2 (to_cluster chosen).1 (fill tenths 1 2 (to_cluster chosen).1.options)

new_client-IsReady_example : IsReady clustered.0 clustered.1
unfolding new_client apply_plugins plugged_client normalized_client normalize fill validate
new_client-IsReady_example =
    new_client-IsReady parts tenths 1 2 refl refl (to_cluster ∷ []) chosen clustered refl
