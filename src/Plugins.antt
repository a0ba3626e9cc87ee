-- ===== src/Plugins.antt =====
-- plugins/cors, plugins/headers and plugins/rewrite: the hooks in front of the proxy.
pub mod Settings
pub mod Cors
pub mod Rewrite
mod Tests
use peretum.Handler.Headers.{Header, Canon, HeadersConfig, set_all, del_all}

-- `BeforeProxy` and `AfterProxy` of plugins/headers/headers.go, on the headers of the request and of
-- the response.
unfoldable pub headers_before_proxy : Canon → HeadersConfig → Header → Header
headers_before_proxy canon c request =
    del_all canon c.request_remove (set_all canon c.request_add request)

unfoldable pub headers_after_proxy : Canon → HeadersConfig → Header → Header
headers_after_proxy canon c h = del_all canon c.response_remove (set_all canon c.response_add h)
