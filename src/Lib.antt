-- ===== src/Lib.antt =====
-- The verification of openscraper-framework, a framework for web scrapers in Go.
--
-- A spider runs tasks. A worker of a factory (spider/factory.go) takes an item, makes a context for it
-- (spider/context.go), and runs the spider's chain of handlers over the context, again on failure, until
-- no handler asks for a new request. Handlers share values through a store (spider/memstore), and
-- requests go through proxies that a pool hands out (reqwest/proxz). Helpers stand in util. Items come to
-- the workers through channels that the process registers by name (spider/register.go), singly or packed
-- into batches (spider/item.go). A client holds one proxy at a time in a guard (reqwest/client.go), dials
-- through it, and shares a limit of requests at once with the other clients (reqwest/option.go).
--
-- Prelude: the shared names, lists over the native numbers, integers (Prelude/Int, Prelude/Convert: a
-- conversion to w bits keeps the value modulo 2 ^ w), strings as bytes (Prelude/Text), and Go's maps from
-- strings (Prelude/Dict).
--
-- Strconv: what the program uses of Go's strconv: ParseInt, Atoi, ParseUint, ParseBool and the printing
-- of integers, with the value that Go returns beside an error.
--
-- Memstore: spider/memstore/store.go. Memstore/Value has the entries, the errors and the printing of a
-- value; Memstore/Signed, Memstore/Unsigned and Memstore/Other the conversions (IntDefault is
-- int_default, and so on); Memstore/Store the slice of entries with Save, Set, SetImmutable, GetEntry,
-- GetEntryAt, Remove, Reset and Len; Memstore/Getters the typed lookups. Memstore/Store/Spec is the
-- abstract view, a list of entries looked up by key. A slice is its backing array and its length, since
-- Save writes into the spare capacity and Remove moves entries in place. How far append grows an array
-- is a parameter, a function of the length. Floating-point numbers, objects and their printing are the
-- parameter Host. An int has 64 bits.
--
-- Spider/Context: spider/context.go, and PreCheck of spider/app.go. A context is a record of the fields
-- of contextImpl that the modelled code reads or writes, with three observations: the requests made and
-- closed, and a trace of events. A request is a number. User code is a script of calls on the context
-- (Ok, Fail, Skip, StopExecution, NewRequest, AddLogField, Next) that may look at the whole context
-- between two calls; OnResponse and ParseResponse are not among them. Next recurses on fuel, the number
-- of handlers, which is enough.
--
-- Spider/Factory: Factory.do (do_item) and doRetry (do_retry) of spider/factory.go, with every exit. The
-- looks at IsStop and at the Done channels are a function of their number. The fuel of do_retry is one
-- more than the retries, which is enough. The rounds of do_item are on fuel that the statements leave
-- open, since a spider may go on making requests for ever; do_item returns whether the task came to its
-- end. The delays, the goroutines of Start and StartSpider, and panics of handlers are not modelled.
-- Spider/Factory/Setup is setupFromConfig.
--
-- Spider/Registry: spider/register.go and spider/anchor.go, whose methods pass on to it: builders,
-- channels and running spiders. A call is one step, since a send, a receive and the locked parts are
-- atomic; what a worker does with an item is its receive. A channel has a size above 0: one of size 0,
-- on which a send needs a receiver that waits, is not modelled. Spider/Submitting is addContextItem and
-- addTimeoutItem, and Spider/Registry/Runs puts the calls together into runs.
--
-- Spider/Items: ContextItem and parseItems of spider/item.go, on a heap of objects, since a batch holds
-- pointers to its children. A context is its deadline, whether it is done, and its values: one whose
-- deadline has passed when it is made is done at once, and a deadline that comes later is a step of a
-- run. Spider/Packing: Pack, on the array behind its slice, over the events that its select receives.
-- How far append grows an array is a parameter. A send on the target always returns.
--
-- Reqwest/Args: reqwest/fasthttp_args.go and VisitAllQueryArg of reqwest/standard_request.go, on bytes.
-- An index of the source is an index here, and a slice whose ends are crossed is the outcome panics. The
-- scanner runs on the length of its text as fuel, which is enough, since next takes a byte or more.
-- Reqwest/Args/Searching is the view of a query string as segments between the `&`.
--
-- Reqwest/World: proxies behind pointers, so that the mark that a failed dial leaves is seen by whoever
-- holds the proxy, with the interfaces of reqwest/proxz/pool.go as functions. Reqwest/Guard: ProxyGuard
-- of reqwest/client.go over any pool and any fetcher; it is a pool itself, and Reqwest/Guard/Dial is
-- PoolDial of reqwest/proxz/pool.go over any such pool. The dialers are parameters. A method runs at one
-- time. Reqwest/Clients: one request and the retries of reqwest/fasthttp_client.go, standard_client.go
-- and tls_client.go. The inner client is a parameter that may use the guard.
--
-- Reqwest/Limits: Acquire and Release of reqwest/option.go. Clients take turns in any order, and a turn
-- is one access to the global context or one call on a semaphore; a client that waits loses its turn.
-- Release subtracts 1 from what is held, which is never 0 then.
--
-- Reqwest/Stats: reqwest/stats/stats.go, counters modulo 2 ^ 32.
--
-- Dot/Items: dot/item.go, an item as a map from strings; other types than strings, integers and booleans
-- are the parameter Floats. Dot/MqWriter: Put and the loop of MqWriter of dot/spider_mq.go, over the
-- events that its select receives and the calls of Add, in any order. An Add at a full channel waits,
-- which leaves the state as it is. The answer of the service is a parameter.
--
-- KvScan: util/redis_ext/kvscan.go, the replies to a scan and the iterator over them, each method as one
-- step. The server is a parameter, a function of the number of the request and the cursor. Next runs on
-- fuel, the number of pages it may ask for: one more than the server has left is enough.
--
-- Collection/IndexingSlice: util/collection/indexing_slice.go, each method as one step.
--
-- ProxyPool: reqwest/proxz/pool_classic.go. AcquireProxy runs over the sequence of what its select
-- receives, whichever case it chooses: proxies with the time at which they come, or the timer.
-- TryFetchProxy, which has the fetcher fill the channel, is not modelled. Seconds and nanoseconds do not
-- overflow in the model. ProxyPool/Config is reqwest/proxz/proxy.go, with url.Parse as a parameter, and
-- ProxyPool/Registry RegisterProvider and CreateProxyPool of reqwest/proxz/pool.go.
--
-- Crypto: util/crypto_utils. The block cipher of crypto/aes is a parameter with its documented laws.
--
-- Examples: runs on concrete inputs.
--
-- Not modelled: the setters and getters on the requests of third-party HTTP packages, the construction of
-- their clients, the database and queue clients of dot and the codecs of util, which only call other
-- packages; the engine, and of the global context all but its values; util/atof and
-- reqwest/dnscache, which are copies of other projects' libraries.
pub mod Collection
pub mod Crypto
pub mod Dot
pub mod Examples
pub mod KvScan
pub mod Memstore
pub mod Prelude
pub mod ProxyPool
pub mod Reqwest
pub mod Spider
pub mod Strconv
