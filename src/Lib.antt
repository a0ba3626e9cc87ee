-- ===== src/Lib.antt =====
-- peretum, a reverse proxy in Go: verification of its core in antt.
--
-- A request reaches the router (internal/router/router.go), which picks the target by the host and
-- a location of the target by the path. A target that is not in memory is loaded once for all
-- waiting requests (internal/router/lazy.go) into an LRU cache (internal/cluster/lru.go). The
-- handler of the location (internal/handler) runs the hooks of the plugins, such as the firewall
-- (plugins/waf), and answers from the disk cache (internal/cache/disk) or sends the request to an
-- upstream that a load balancer chooses (internal/loadbalancer/loadbalancer.go), whose health the
-- active checks restore (internal/loadbalancer/healthcheck.go).
--
-- LoadBalancer and its children model the four balancers: RoundRobin, Weighted, LeastConnections
-- and Maglev have a state record, a constructor, next (Next) and mark (MarkHealthy); Balancer is
-- the interface with New, HealthCheck a round of probeUnhealthy. DiskCache/Shard is lruShard,
-- DiskCache/Metadata the format of writeMetadata and readMetadata, DiskCache/Cache the type
-- DiskCache with touch, untrack (remove), evict_oldest (evict), ensure_space, sweep and the
-- purges, DiskCache/Responses writeAtomic, SetResponseToCache, Peek and streamCachedResponse.
-- Router is HostRouter, Router/Locations TargetConfigHandler with LocationConfig.Matches
-- (internal/config/config.go), Router/Flights FlightTable, Cluster/Lru LRUCache, DiskCache/Offline
-- is internal/cache/disk/purge.go, Config and Config/Listeners the texts of
-- internal/config/config.go, Router/Lazy LazyHandler, Plugins the hooks of plugins/cors,
-- plugins/headers and plugins/rewrite with the helpers of plugins/base/helpers.go; Handler is
-- internal/handler: Handler/Headers the header rules, Handler/Transport the two round trips,
-- Handler/Serve ServeHTTP, whose children Lookup and Fetch are the cache with the flights, and the
-- fetch with the store; its hooks act on an Exchange, the request, the headers of the reply and of
-- the captured response, and the plugins' own data; RateLimit the Store of
-- plugins/ratelimit/store.go, PluginManager the chains of hooks of
-- internal/plugin/manager/manager.go with the interfaces of plugins/base/base.go. Waf is the
-- plugin of plugins/waf: Waf/Policy is buildRuleSet and the evaluation of hits, Waf/Index
-- compileCondition and applyIndex, Waf/Aho the merged patterns, Waf/Request requestCtx with the
-- body, Waf/Enforce BeforeProxy; Waf/Policy/Reference evaluates the rules without indexes. Prelude
-- holds shared types and lemmas. Each folder's module Tests has runs and the theorems at concrete
-- inputs.
--
-- A method that changes its receiver is a function from state to state. A call holds its mutex, so
-- it is one step; only materialize, which gives it up while it waits, is a relation of steps.
-- Pointers to list elements are named by their keys. Go maps are association lists whose order
-- stands for the undetermined order of range. Times come with the calls, and the outcome of a
-- system call is an argument. Counters that the source keeps in int64 are integers; uint32 and
-- uint64 arithmetic wraps around in full. The result none of a partial function is a panic or the
-- end of the fuel.
--
-- Fuel: the loop of ensureSpace gets one round more than there are entries, since each round takes
-- one out; the rounds of the Maglev table get the size of the table and one more, since each round
-- fills a slot. Both are proved to be enough.
--
-- Not modelled: goroutines, tickers and channels but for those of FlightTable, SHA-256,
-- directories, the wrappers of the handler for the access log and the compression, the HTTP
-- library, regular expressions, network addresses, floats, the Aho-Corasick automaton and the
-- token buckets of golang.org/x/time/rate (parameters, with the documented behaviour of the
-- automaton as a hypothesis), the reading of the maps of the firewall's configuration, and the
-- parts that are neither named above nor reached from them: the other plugins, the cluster
-- synchronisation, the control plane, the API and the commands.
pub mod Prelude
pub mod Handler
pub mod LoadBalancer
pub mod Config
pub mod DiskCache
pub mod Cluster
pub mod PluginManager
pub mod Plugins
pub mod RateLimit
pub mod Router
pub mod Waf
