-- ===== src/Lib.antt =====
-- AoEo: a library that sends chat requests to several providers of language models. A Scheduler takes
-- a slot of its adaptive semaphore for each request, lets a Router choose a provider by the
-- providers' status, runs the request through a chain of interceptors, calls the provider with
-- retries, records the call in a History, and falls back to other providers. Each provider has a
-- circuit breaker, which its availability follows. A privacy gateway, itself an interceptor, replaces
-- the personal values that a model on several sidecars detects by fake ones, and restores them in the
-- response.
--
-- Base: what the modules share. Tests has the Boolean tests on native numbers, Lists lists that such
--   numbers measure, Int signed integers, Errors the error values and how a Go call comes back
--   (value, error or panic), Circular the ring buffer, Rotate and ExchangeSort two loops, Codes bytes,
--   Substring strings.ReplaceAll and strings.Contains, Texts the decidable equality of texts.
-- Core.Float32: the float32 parameters of a request and their comparisons.
-- Core.Types: core/types.go, requests and responses, and ChatCompletionRequest.Validate.
-- Core.Pricing: core/pricing.go, Usage.Cost and DefaultPricing.
-- Core.Router: core/router.go, the single, primary, round robin and weighted routers.
-- Core.Retry: core/retry.go, RetryConfig.Validate and IsRetryableError.
-- Core.Interceptor: core/interceptor.go, the four passes of InterceptorChain.
-- Engine.Semaphore: internal/engine/semaphore.go, adaptiveSemaphore. Threads gives AcquireN, ReleaseN
--   and setMaxConc as steps of goroutines on the shared state; the functions of the parent are the
--   wake loops where nobody interferes.
-- Engine.Retry: internal/engine/retry_impl.go, DoRetry.
-- Engine.History: internal/engine/history.go, History with its ring, queue, queries and statistics.
-- Engine.Scheduler: internal/engine/scheduler.go, pickWithRouter, buildRecord; Complete has
--   ChatComplete and ChatCompleteWithRouter, Fallback ChatCompleteWithFallback and AvailableProviders,
--   Lifecycle NewScheduler, ApplyConfig and Close.
-- Engine.Result: internal/engine/result.go, findFirstJSONObject and findFirstJSONArray.
-- Engine.Stream: internal/engine/stream.go, ChatCompleteStream, chatCompleteStreamWithRouter and
--   ParseSSEWithContext. What the selects of the goroutine find is a list of turns. Lines has ParseSSE
--   on a text, with the lines of bufio.Scanner.
-- Engine.Audit: internal/engine/audit.go, Audit, with PickProviderRoundRobin of scheduler.go, and
--   MergeChoices and Consensus of result.go.
-- Engine.Dual: internal/engine/scheduler.go, ChatCompleteDual. Which of its two goroutines calls its
--   provider first is a parameter.
-- Engine.Prompt: internal/engine/prompt.go, PromptInjector.
-- Privacy.Endpoints: splitEndpoints of privacy/model/loadbalancer.go and privacy/gateway.go.
-- Privacy.Balancer: privacy/model/loadbalancer.go, LoadBalancedClient.
-- Privacy.Adapter: privacy/model_adapter.go, which makes a detector of a model client;
--   Balanced makes a model client of the LoadBalancedClient.
-- Privacy.Generator: privacy/generator.go, genericMask and computeIDCheckDigit; Texts has its texts and
--   Fakes FakeGenerator.Generate with all its kinds of fake values.
-- Privacy.Pseudonymizer: privacy/pseudonymizer.go, PseudonymizeRequest; Restoring has the
--   ways of restoring a response.
-- Privacy.Gateway: privacy/gateway.go, the hooks, extractSessionID and the detector of NewGateway.
-- Privacy.Store: privacy/store/pebble.go, keys, values, Set, GetOriginal, GetFake and DeleteSession.
-- Providers.Breaker: providers/providers.go, RecordSuccess, RecordFailure and IsAvailable.
-- Providers.Window: providers/providers.go, pushHealthEntry and Health.
--
-- State is passed explicitly: an operation takes a record and gives a new one. A Go result
-- `(T, error)` is an `Outcome` or a `Reply`, a panic a value, and a deferred function what is applied
-- to that value. The scheduler's requests run over a world `W`, which stands for providers, clocks and
-- contexts: what a provider answers is a function of the world, and may change it. The semaphore's
-- goroutines are a relation `Step` on systems of any number of goroutines, so that its theorems hold
-- of all interleavings.
--
-- Bounds. The semaphore's counters and the breaker's failCount are 32-bit patterns with wrap-
-- around, the counters of the round robins 64-bit ones, products of prices 64-bit; Go's `int` and
-- `int64` are unbounded elsewhere. A finite float32 is a number of units of 2^-149, beside NaN and
-- the infinities. Loops are structural, but for the wake loop and the draws of PseudonymizeRequest.
-- The fuel of the wake loop is the length of the queue, since each round takes a waiter out. The
-- draws have no bound in the code: `stuck` is what is left when the fuel is used up, and one round
-- more than the draws that are in use is enough. DoRetry recurses on the retries that are left.
--
-- Parameters of the model: float64 arithmetic (a record of operations), the growth of the retry
-- delay with its jitter, the answers of providers, of a storage and of a user's router or hooks,
-- the text of an error, the prompt injector of the scheduler, the mapping store, the detector and
-- the generator of the pseudonymizer (`Vault`, whose generator may be that of Privacy.Generator),
-- three functions of package strings (`Words`), the sidecars with the clock and math/rand
-- (`Sidecars`), and the key-value database (`Pebble`, with the laws of Get, Apply and DeleteRange).
-- A timeout is one of the ways in which a provider or a sidecar answers.
--
-- Not modelled: RandomRouter (a random source), CostString, clones (values do not alias), the
-- decoding of results (encoding/json), the loop that repeats the health checks of providers, the
-- conversions to third-party HTTP clients, the sidecars' HTTP client, GetSession and Cleanup of the
-- Pebble store (iterators), the storage backends (SQL), the HTTP server, the client facade, the
-- configuration files, and the commands.
pub mod Base
pub mod Core
pub mod Engine
pub mod Providers
pub mod Privacy
