-- ===== src/Proxy/Tests.antt =====
-- Lists of proxies for src/proxy.rs.
use lkrequest_py.Prelude.{String, List, [], ◌∷◌, PyResult, ok}
use lkrequest_py.Proxy.{
  Handle, ProxyArgument, proxy_url, proxy_object, no_proxy, iterable, resolve_proxy_list, through,
}
use lkrequest_py.Proxy.Lists.{Gives, Chains, proxies-Gives}

abbrev parse : String → PyResult Handle
parse url = ok 1

abbrev prepend : Handle → List Handle → Handle
prepend last hops = 7

abbrev items : List (PyResult ProxyArgument)
items = ok (proxy_url "http://a") ∷ ok (proxy_object 2) ∷ ok no_proxy ∷ []

proxies-Gives_example :
    Gives parse (iterable items) (resolve_proxy_list parse (iterable items))
    × Chains parse prepend 3 (iterable items) (through parse prepend 3 (iterable items))
proxies-Gives_example = proxies-Gives parse prepend 3 (iterable items)
