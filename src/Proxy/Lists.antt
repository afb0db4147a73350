-- ===== src/Proxy/Lists.antt =====
-- The lists of proxies that src/proxy.rs takes.
use lkrequest_py.Prelude.{
  ◌≡◌, refl, String, List, [], ◌∷◌, ◌++◌, ◌>>=◌, PyErr, PyResult, ok, err, some, error_kind,
  type_error,
}
use lkrequest_py.Proxy.{
  Handle, ProxyArgument, proxy_url, proxy_object, no_proxy, ProxiesArgument, single_url,
  not_iterable, iterable, collect, resolve_proxy, resolve_proxy_list, through,
}

module _ (parse : String → PyResult Handle) where
  -- The configuration that an item stands for: what a text is parsed to, or the object itself.
  abbrev pub IsConfig : PyResult ProxyArgument → Handle → Type 0
  IsConfig (ok (proxy_url url)) config = parse url ≡ ok config
  IsConfig (ok (proxy_object given)) config = given ≡ config
  IsConfig (ok no_proxy) config = ⊥
  IsConfig (err e) config = ⊥

  -- The error of an item that stands for none: of the iterator, of the parser, or a `TypeError`.
  abbrev pub IsBad : PyResult ProxyArgument → PyErr → Type 0
  IsBad (err raised) e = raised ≡ e
  IsBad (ok (proxy_url url)) e = parse url ≡ err e
  IsBad (ok (proxy_object given)) e = ⊥
  IsBad (ok no_proxy) e = e.kind ≡ type_error

  -- One configuration for each item, in order.
  abbrev pub AreConfigs : List (PyResult ProxyArgument) → List Handle → Type 0
  AreConfigs [] [] = Unit
  AreConfigs [] (config ∷ configs) = ⊥
  AreConfigs (item ∷ items) [] = ⊥
  AreConfigs (item ∷ items) (config ∷ configs) = IsConfig item config × AreConfigs items configs

  -- A first bad item, and its error.
  pub record FirstBad (items : List (PyResult ProxyArgument)) (e : PyErr) : Type 0 where
    pub before : List (PyResult ProxyArgument)
    pub bad : PyResult ProxyArgument
    pub after : List (PyResult ProxyArgument)
    pub given : List Handle
    pub parts : items ≡ before ++ bad ∷ after
    pub good : AreConfigs before given
    pub raises : IsBad bad e

  -- What an argument for several proxies gives.
  abbrev pub Gives : ProxiesArgument → PyResult (List Handle) → Type 0
  Gives (single_url url) r = error_kind r ≡ some type_error
  Gives not_iterable r = error_kind r ≡ some type_error
  Gives (iterable items) (ok configs) = AreConfigs items configs
  Gives (iterable items) (err e) = FirstBad items e

  bad_first :
      (item : PyResult ProxyArgument) (items : List (PyResult ProxyArgument)) (e : PyErr)
      → IsBad item e
      → FirstBad (item ∷ items) e
  bad_first item items e h = record {
    before = [];
    bad = item;
    after = items;
    given = [];
    parts = refl;
    good = tt;
    raises = h;
  }

  good_first :
      (item : PyResult ProxyArgument) (items : List (PyResult ProxyArgument)) (config : Handle)
      (e : PyErr)
      → IsConfig item config
      → FirstBad items e
      → FirstBad (item ∷ items) e
  good_first item items config e h r = record {
    before = item ∷ r.before;
    bad = r.bad;
    after = r.after;
    given = config ∷ r.given;
    parts = cc (r.parts);
    good = (h, r.good);
    raises = r.raises;
  }

  joined :
      (item : PyResult ProxyArgument) (config : Handle) (items : List (PyResult ProxyArgument))
      (r : PyResult (List Handle))
      → IsConfig item config
      → Gives (iterable items) r
      → Gives (iterable (item ∷ items)) (r >>= (λ configs. ok (config ∷ configs)))
  joined item config items (err e) h g = good_first item items config e h g
  joined item config items (ok configs) h g = (h, g)

  parsed :
      (url : String) (x : PyResult Handle) (items : List (PyResult ProxyArgument))
      (r : PyResult (List Handle))
      → parse url ≡ x
      → Gives (iterable items) r
      → Gives
          (iterable (ok (proxy_url url) ∷ items))
          (x >>= (λ config. r >>= (λ configs. ok (config ∷ configs))))
  parsed url (err e) items r p g = bad_first (ok (proxy_url url)) items e p
  parsed url (ok config) items r p g = joined (ok (proxy_url url)) config items r p g

  items-Gives :
      (items : List (PyResult ProxyArgument))
      → Gives (iterable items) (collect (resolve_proxy parse) items)
  unfolding collect resolve_proxy
  items-Gives [] = tt
  items-Gives (err e ∷ items) = bad_first (err e) items e refl
  items-Gives (ok (proxy_url url) ∷ items) =
      parsed url (parse url) items (collect (resolve_proxy parse) items) refl (items-Gives items)
  items-Gives (ok (proxy_object given) ∷ items) =
      joined (ok (proxy_object given)) given items (collect (resolve_proxy parse) items) refl
        (items-Gives items)
  items-Gives (ok no_proxy ∷ items) = bad_first (ok no_proxy) items _ refl

  resolve_proxy_list-Gives :
      (argument : ProxiesArgument) → Gives argument (resolve_proxy_list parse argument)
  unfolding resolve_proxy_list
  resolve_proxy_list-Gives (single_url url) = refl
  resolve_proxy_list-Gives not_iterable = refl
  resolve_proxy_list-Gives (iterable items) = items-Gives items

  module _ (prepend : Handle → List Handle → Handle) (last : Handle) (hops : ProxiesArgument) where
    -- The hops of a chain that was put before a proxy.
    abbrev pub Chains : PyResult Handle → Type 0
    Chains (ok chain) =
        (configs : List Handle) × Gives hops (ok configs) × (chain ≡ prepend last configs)
    Chains (err e) = Gives hops (err e)

    chained :
        (r : PyResult (List Handle))
        → Gives hops r
        → Chains (r >>= (λ configs. ok (prepend last configs)))
    chained (err e) g = g
    chained (ok configs) g = (configs, g, refl)

  -- A list of proxies gives one configuration for each item, in order, if every item has one: a text
  -- has what it is parsed to, and a `ProxyConfig` is its own. Otherwise it raises the error of the
  -- first item that has none, and the items before it are fine: the iterator's own error, that of the
  -- parser, or a `TypeError` for an object that is neither. A single text, which Python would iterate
  -- by its characters, and an object that cannot be iterated are a `TypeError`. `ProxyConfig.through`
  -- puts these configurations before the proxy, and raises the same errors.
  pub proxies-Gives :
      (prepend : Handle → List Handle → Handle) (last : Handle) (argument : ProxiesArgument)
      → Gives argument (resolve_proxy_list parse argument)
        × Chains prepend last argument (through parse prepend last argument)
  unfolding through
  proxies-Gives prepend last argument =
      let g = resolve_proxy_list-Gives argument in
      (g, chained prepend last argument (resolve_proxy_list parse argument) g)
