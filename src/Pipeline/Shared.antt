-- ===== src/Pipeline/Shared.antt =====
-- Whose configs and secrets the pipeline's caches answer.
use invokr.Base.{◌≡◌, ap, String, Option, none, some}
use invokr.Base.Result.{ok}
use invokr.Json.{Json}
use invokr.Store.Conn.{Conn}
use invokr.Cache as Cache
use invokr.Cache.{Cache}
use invokr.Pipeline.Load.{
  Env, World, load_config, load_single_secret, cached_config, cached_secret, flatten_json_object,
}

cached_config-some :
    (env : Env) (name : String) (v : Json) (w : World) (p : Option Json × Cache Json)
    → p.0 ≡ some v
    → (cached_config env name w p).0 ≡ flatten_json_object v
cached_config-some env name v w (none, c) h = cc
cached_config-some env name v w (some x, c) h = ap flatten_json_object (let e : x ≡ v = cc in e)

cached_secret-some :
    (env : Env) (name v : String) (w : World) (p : Option String × Cache String)
    → p.0 ≡ some v
    → (cached_secret env name w p).0 ≡ ok v
cached_secret-some env name v w (none, c) h = cc
cached_secret-some env name v w (some x, c) h = cc

-- A config and a secret that the caches still hold under a name are what every execution is given
-- under it, whatever its transaction is: also if the workspace's own store holds another value
-- under the name, or none.
load_cached :
    (env : Env) (name text : String) (v : Json) (w : World) (c : Conn)
    → (Cache.get env.instant name w.config_cache).0 ≡ some v
    → (Cache.get env.instant name w.secret_cache).0 ≡ some text
    → ((load_config env name (record w { conn = c })).0 ≡ flatten_json_object v)
      × ((load_single_secret env name (record w { conn = c })).0 ≡ ok text)
unfolding load_config load_single_secret
load_cached env name text v w c config secret = (
  cached_config-some env name v (record w { conn = c }) (Cache.get env.instant name w.config_cache)
      config,
  cached_secret-some env name text (record w { conn = c })
      (Cache.get env.instant name w.secret_cache) secret,
)
