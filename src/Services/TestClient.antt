-- ===== src/Services/TestClient.antt =====
-- The client of a test: NewClient of sdk/go/resilixtest/client.go. That a failure of New ends the
-- test is left to the caller, and so is the Close at the end of the test.
use resilix.Prelude.{◌≡◌, refl, none, some, []}
use resilix.Errors.{Result, ok}
use resilix.Breaker.{Breaker}
use resilix.Options.{Floats, default_options, normalize, fill, validate}
use resilix.Contract.{Backend}
use resilix.Retry.{World}
use resilix.Services.{Session}
use resilix.Services.Lifecycle.{
  Parts, new_client, apply_plugins, plugged_client, normalized_client, assemble,
}

module _ {E P F : Type 0} (parts : Parts E P F) (fl : Floats F) (logger registry : P) where
  -- `handle` is the mock as a value of the options.
  unfoldable pub test_client : P → Backend (World E) → Result (Session E × Breaker)
  unfolding default_options
  test_client handle mock = new_client parts fl logger registry [] (record {
    options = record (default_options fl logger registry) { backend = some handle };
    before_execute = [];
    after_execute = [];
    middlewares = [];
    classifier = none;
    rate_limiter = none;
    backend = some mock;
  })

  -- The default options with a mock are accepted: the test gets a client, which runs on the mock.
  pub test_client-made :
      (handle : P) (mock : Backend (World E))
      → (x : Session E × Breaker) × (test_client handle mock ≡ ok x) × (x.0.backend ≡ mock)
  unfolding test_client new_client apply_plugins plugged_client normalized_client normalize fill
      validate assemble
  test_client-made handle mock = (_, refl, refl)
